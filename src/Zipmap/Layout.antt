-- ===== src/Zipmap/Layout.antt =====
-- The layout of an entry, and what zipmap.c reads of it.
use libredis_a.Common.{
  ℕ, suc, ◌+◌, ◌^◌, ◌<◌, ◌≡◌, refl, sym, ap, ◌∙◌, Bool, false, ◌&&◌, List, [], ◌∷◌, ◌++◌, length,
  length-append, ◌==◌, ltb, Bool-cases, inl, inr, arith,
}
use mathlib.Core.List.{append_assoc}
use native.Mathlib.Nat.{mod-eq_of_lt}
use libredis_a.Common.Blocks.{
  take, drop, take-append, drop-append, length-word_bytes, word_value-word_bytes,
}
use libredis_a.Util.{same_bytes}
use libredis_a.Zipmap.{
  big_len, end_mark, first_byte, byte_at, len_bytes, decode_length, encode_length, raw_key_length,
  raw_value_length, value_step, raw_entry_length, key_matches, value_from,
}

-- An entry with the unused bytes after its value.
pub record Entry : Type 0 where
  pub key : List ℕ
  pub val : List ℕ
  pub spare : List ℕ

abbrev pub value_part : Entry → List ℕ
value_part e = encode_length (length e.val) ++ (length e.spare ∷ (e.val ++ e.spare))

abbrev pub encoded : Entry → List ℕ
encoded e = encode_length (length e.key) ++ (e.key ++ value_part e)

-- Its size is an unsigned int.
abbrev pub Small : Entry → Type 0
Small e = length (encoded e) < 2 ^ 32

abbrev pub same_string : List ℕ → List ℕ → Bool
same_string a b = (length a == length b) && same_bytes a b

pub length-encode_length : (n : ℕ) → length (encode_length n) ≡ len_bytes n
unfolding encode_length
length-encode_length n = elim (Bool-cases (ltb n big_len)) [
  | inl e ↦ rw e refl
  | inr e ↦ rw e (ap suc (length-word_bytes 4 n))
]

pub decode_length-encode_length :
    (n : ℕ) (q : List ℕ) → n < 2 ^ 32 → decode_length (encode_length n ++ q) ≡ n
unfolding encode_length decode_length drop
decode_length-encode_length n q h = elim (Bool-cases (ltb n big_len)) [
  | inl e ↦ rw (e, e) refl
  | inr e ↦ rw e (word_value-word_bytes 4 n q (omega (arith, h)))
]

pub not_end : (n : ℕ) (q : List ℕ) → (first_byte (encode_length n ++ q) == end_mark) ≡ false
unfolding encode_length
not_end n q = elim (Bool-cases (ltb n big_len)) [ inl e ↦ rw e (ground arith) | inr e ↦ rw e refl ]

-- The sizes of an entry and of its parts.
pub length-value_part :
    (e : Entry)
    → length (value_part e) ≡ len_bytes (length e.val) + (length e.spare + 1 + length e.val)
length-value_part e = omega (
  arith,
  length-append (encode_length (length e.val)) (length e.spare ∷ (e.val ++ e.spare)),
  length-encode_length (length e.val),
  length-append e.val e.spare,
)

pub length-encoded :
    (e : Entry)
    → length (encoded e) ≡ len_bytes (length e.key) + length e.key + length (value_part e)
length-encoded e = omega (
  arith,
  length-append (encode_length (length e.key)) (e.key ++ value_part e),
  length-encode_length (length e.key),
  length-append e.key (value_part e),
)

module _ (e : Entry) (small : Small e) (x : List ℕ) where
  encoded_split : encoded e ++ x ≡ encode_length (length e.key) ++ (e.key ++ (value_part e ++ x))
  encoded_split =
      append_assoc (encode_length (length e.key)) (e.key ++ value_part e) x
      ∙ ap (λ r. encode_length (length e.key) ++ r) (append_assoc e.key (value_part e) x)

  value_split :
      value_part e ++ x
      ≡ encode_length (length e.val) ++ (length e.spare ∷ (e.val ++ (e.spare ++ x)))
  value_split =
      append_assoc (encode_length (length e.val)) (length e.spare ∷ (e.val ++ e.spare)) x
      ∙ ap (λ r. encode_length (length e.val) ++ (length e.spare ∷ r))
          (append_assoc e.val e.spare x)

  key_bound : length e.key < 2 ^ 32
  key_bound = omega (arith, small, length-encoded e)

  val_bound : length e.val < 2 ^ 32
  val_bound = omega (arith, small, length-encoded e, length-value_part e)

  decode_key : decode_length (encoded e ++ x) ≡ length e.key
  decode_key =
      ap decode_length encoded_split ∙ decode_length-encode_length (length e.key) _ key_bound

  decode_value : decode_length (value_part e ++ x) ≡ length e.val
  decode_value =
      ap decode_length value_split ∙ decode_length-encode_length (length e.val) _ val_bound

  pub raw_key_length_lem : raw_key_length (encoded e ++ x) ≡ len_bytes (length e.key) + length e.key
  unfolding raw_key_length
  raw_key_length_lem = rw decode_key (mod-eq_of_lt (omega (arith, small, length-encoded e)))

  past_length : drop (len_bytes (length e.key)) (encoded e ++ x) ≡ e.key ++ (value_part e ++ x)
  past_length =
      ap (drop (len_bytes (length e.key))) encoded_split
      ∙ drop-append _ (encode_length (length e.key)) _ (sym (length-encode_length (length e.key)))

  pub past_key : drop (len_bytes (length e.key) + length e.key) (encoded e ++ x) ≡ value_part e ++ x
  past_key =
      ap (drop (len_bytes (length e.key) + length e.key)) (
        encoded_split ∙ sym (append_assoc (encode_length (length e.key)) e.key (value_part e ++ x)))
      ∙ drop-append _ (encode_length (length e.key) ++ e.key) _ (
          omega (
            arith,
            length-append (encode_length (length e.key)) e.key,
            length-encode_length (length e.key),
          ))

  spare_byte : byte_at (len_bytes (length e.val)) (value_part e ++ x) ≡ length e.spare
  spare_byte = ap first_byte (
      ap (drop (len_bytes (length e.val))) value_split
      ∙ drop-append _ (encode_length (length e.val)) _ (sym (length-encode_length (length e.val))))

  pub raw_value_length_lem : raw_value_length (value_part e ++ x) ≡ length (value_part e)
  unfolding raw_value_length
  raw_value_length_lem =
      rw (decode_value, spare_byte)
        (mod-eq_of_lt (omega (arith, small, length-encoded e, length-value_part e))
          ∙ sym (length-value_part e))

  pub value_step_lem : value_step (value_part e ++ x) ≡ length (value_part e)
  unfolding value_step
  value_step_lem =
      rw (decode_value, spare_byte)
        (ap (λ n. len_bytes (length e.val) + n)
            (mod-eq_of_lt (omega (arith, small, length-encoded e, length-value_part e)))
          ∙ omega (arith, length-value_part e))

  past_byte : drop (len_bytes (length e.val) + 1) (value_part e ++ x) ≡ e.val ++ (e.spare ++ x)
  past_byte =
      ap (drop (len_bytes (length e.val) + 1)) (
        value_split
        ∙ sym (
            append_assoc (encode_length (length e.val)) (length e.spare ∷ [])
              (e.val ++ (e.spare ++ x))))
      ∙ drop-append _ (encode_length (length e.val) ++ (length e.spare ∷ [])) _ (
          omega (
            arith,
            length-append (encode_length (length e.val)) (length e.spare ∷ []),
            length-encode_length (length e.val),
          ))

  pub raw_entry_length_lem : raw_entry_length (encoded e ++ x) ≡ length (encoded e)
  unfolding raw_entry_length
  raw_entry_length_lem =
      rw (raw_key_length_lem, past_key, raw_value_length_lem)
        (mod-eq_of_lt (omega (arith, small, length-encoded e)) ∙ sym (length-encoded e))

  pub key_matches_lem : (key : List ℕ) → key_matches key (encoded e ++ x) ≡ same_string e.key key
  unfolding key_matches
  key_matches_lem key =
      rw (decode_key, past_length, take-append (length e.key) e.key (value_part e ++ x) refl) refl

  pub value_from_lem : value_from (encoded e ++ x) ≡ e.val
  unfolding value_from
  value_from_lem =
      rw (raw_key_length_lem, past_key, decode_value, past_byte)
        (take-append (length e.val) e.val (e.spare ++ x) refl)

  pub first_byte_lem : (first_byte (encoded e ++ x) == end_mark) ≡ false
  first_byte_lem = ap (λ q. first_byte q == end_mark) encoded_split ∙ not_end (length e.key) _

  pub past_value : drop (length (value_part e)) (value_part e ++ x) ≡ x
  past_value = drop-append _ (value_part e) x refl

  pub past_entry : drop (length (encoded e)) (encoded e ++ x) ≡ x
  past_entry = drop-append _ (encoded e) x refl

  pub key_from_lem :
      take
        (decode_length (encoded e ++ x))
        (drop (len_bytes (decode_length (encoded e ++ x))) (encoded e ++ x))
      ≡ e.key
  key_from_lem =
      rw (decode_key, past_length) (take-append (length e.key) e.key (value_part e ++ x) refl)
