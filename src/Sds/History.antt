-- ===== src/Sds/History.antt =====
-- Any sequence of changes of a string, by the functions of sds.c on ints.
use libredis_a.Common.{
  ℕ, ◌+◌, ◌-◌, ◌^◌, ◌<◌, ◌≡◌, refl, sym, ap, ◌∙◌, subst, List, [], ◌∷◌, ◌++◌, length, length-append,
  arith,
}
use libredis_a.Common.Int.{pos}
use libredis_a.Common.Blocks.{IsRealloc}
use libredis_a.Sds.Buffer.{Buffer, new_buffer, zeros, range, grow_zero, cat_len, copy_len}
use libredis_a.Sds.Ints.{int_of_pos}
use libredis_a.Sds.Slice.{length-pick}
use libredis_a.Sds.Agree.{
  embed, Small, IsIndex, cat_len_agrees, grow_zero_agrees, copy_len_agrees, range_agrees,
}
use libredis_a.Sds.Edits.{
  Edit, append_edit, copy_edit, grow_edit, range_edit, meaning, length-zeros, shape_run,
  shape_run-Contains,
}

-- Every string on the way is shorter than 2^30, and so are the indices.
unfoldable pub IsShort : List ℕ → List Edit → Type 0
IsShort init [] = length init < 2 ^ 30
IsShort init (append_edit t ∷ es) = (length (meaning init es) + length t < 2 ^ 30) × IsShort init es
IsShort init (copy_edit t ∷ es) = (length t < 2 ^ 30) × IsShort init es
IsShort init (grow_edit n ∷ es) = (n < 2 ^ 30) × IsShort init es
IsShort init (range_edit a b ∷ es) = IsIndex a × IsIndex b × IsShort init es

-- The buffer holds a string, its nul and as many unused bytes as it says.
pub record Carries (b : Buffer) (s : List ℕ) : Type 0 where
  pub rest : List ℕ
  pub is : b.buf ≡ s ++ (0 ∷ rest)
  pub len_is : b.len ≡ pos (length s)
  pub free_is : b.free ≡ pos (length rest)

length-meaning :
    (init : List ℕ) (es : List Edit) → IsShort init es → length (meaning init es) < 2 ^ 30
unfolding meaning IsShort
length-meaning init [] h = h
length-meaning init (append_edit t ∷ es) (h, hs) =
    omega (arith, h, length-append (meaning init es) t)
length-meaning init (copy_edit t ∷ es) (h, hs) = h
length-meaning init (grow_edit n ∷ es) (h, hs) =
    let s = meaning init es in
    omega (
      arith,
      h,
      length-meaning init es hs,
      length-append s (zeros (n - length s)),
      length-zeros (n - length s),
    )
length-meaning init (range_edit a b ∷ es) (ha, hb, hs) =
    omega (arith, length-meaning init es hs, length-pick _ 0 (meaning init es))

module _ (realloc : List ℕ → ℕ → List ℕ) where
  -- The last change stands first.
  unfoldable pub run : List ℕ → List Edit → Buffer
  run init [] = new_buffer init
  run init (append_edit t ∷ es) = cat_len realloc (run init es) t
  run init (copy_edit t ∷ es) = copy_len realloc (run init es) t
  run init (grow_edit n ∷ es) = grow_zero realloc (run init es) n
  run init (range_edit a b ∷ es) = range (run init es) a b

  module _ (library : IsRealloc realloc) (init : List ℕ) where
    run_agrees :
        (es : List Edit)
        → IsShort init es
        → (run init es ≡ embed (shape_run realloc init es)) × Small (shape_run realloc init es)
    unfolding run shape_run IsShort new_buffer
    run_agrees [] h = (rw (int_of_pos (length init) (omega (arith, h))) refl, omega (arith, h))
    run_agrees (append_edit t ∷ es) (h, hs) =
        let (same, small) = run_agrees es hs in
        let size = (shape_run-Contains realloc library init es).len_is in
        let (agree, fits) =
          cat_len_agrees realloc (shape_run realloc init es) small t (omega (arith, h, size)) in
        (ap (λ b. cat_len realloc b t) same ∙ agree, fits)
    run_agrees (copy_edit t ∷ es) (h, hs) =
        let (same, small) = run_agrees es hs in
        let (agree, fits) = copy_len_agrees realloc (shape_run realloc init es) small t h in
        (ap (λ b. copy_len realloc b t) same ∙ agree, fits)
    run_agrees (grow_edit n ∷ es) (h, hs) =
        let (same, small) = run_agrees es hs in
        let (agree, fits) = grow_zero_agrees realloc (shape_run realloc init es) small n h in
        (ap (λ b. grow_zero realloc b n) same ∙ agree, fits)
    run_agrees (range_edit x z ∷ es) (hx, hz, hs) =
        let (same, small) = run_agrees es hs in
        let size = (shape_run-Contains realloc library init es).len_is in
        let short = length-meaning init es hs in
        let (agree, fits) =
          range_agrees (shape_run realloc init es) small (omega (arith, size, short)) x z hx hz in
        (ap (λ b. range b x z) same ∙ agree, fits)

    -- With a zrealloc that keeps the bytes that both sizes share, after any sequence of sdscatlen,
    -- sdscpylen, sdsgrowzero and sdsrange on a new string, in which every string is shorter than
    -- 2^30 bytes and every index of a range less than 2^30 away from the start or the end, the
    -- buffer holds the string that they make, a nul and as many unused bytes as it says, and its
    -- length is that of the string; no int overflows. A range keeps the characters from the first
    -- index to the last one, where negative indices count from the end and an end before the
    -- string stands for its first character.
    pub run-Carries : (es : List Edit) → IsShort init es → Carries (run init es) (meaning init es)
    run-Carries es h =
        let c = shape_run-Contains realloc library init es in
        subst (λ b. Carries b (meaning init es)) (sym ((run_agrees es h).0))
          (record {
            rest = c.rest;
            is = c.is;
            len_is = ap pos c.len_is;
            free_is = ap pos c.free_is;
          })
