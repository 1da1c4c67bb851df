-- ===== src/IntSet/Members.antt =====
-- intset.c against its abstract view: a finite set of 64-bit integers.
use libredis_a.Common.{
  ℕ, ◌+◌, ◌*◌, ◌≤◌, ◌<◌, ◌≡◌, ◌≢◌, refl, sym, ap, ◌∙◌, ◌⊎◌, ◌↔◌, inl, inr, Bool, true, false, ◌&&◌,
  arith, ltb, leb, Bool-cases, ltb→lt, ltb→le,
}
use libredis_a.Common.Int.{ℤ, parts_of_eq}
use libredis_a.Common.Bytes.{Fits, Allocator}
use libredis_a.IntSet.{IntSet, get, search, value_encoding, upgrade_and_add, new, add, remove, find}
use libredis_a.IntSet.Values.{
  IsEncoding, max_length, value_encoding-IsEncoding, value_encoding-Fits, Fits-value_encoding,
  get_encoded-Fits,
}
use libredis_a.IntSet.Search.{Answers, search-Answers}
use libredis_a.IntSet.Splice.{
  IsValid, Member, InsertedAt, InsertedAt-IsAscending, Member-InsertedAt, RemovedAt-IsAscending,
  Member-RemovedAt,
}
use libredis_a.IntSet.Upgrade.{upgrade_and_add-Upgrades}
use libredis_a.IntSet.Shift.{
  inserted, removed, inserted_header, inserted-InsertedAt, removed_header, removed-RemovedAt,
}

-- A new intset is well formed and has no member.
pub new-IsValid : (a : Allocator) → IsValid (new a) × ((x : ℤ) → ¬ (Member (new a) x))
unfolding new
new-IsValid a = (
  record {
    encoded = inl refl;
    sized = omega arith;
    short = omega arith;
    ascending = λ i j p q. elim q [ ];
  },
  λ x m. elim (m.1) [ ],
)

and_right : (a b : Bool) → (a && b) ≡ true → b ≡ true
and_right true b h = h
and_right false b h = cc

and_false : (a : Bool) → (a && false) ≡ false
and_false true = refl
and_false false = refl

le→leb : (m n : ℕ) → m ≤ n → leb m n ≡ true
le→leb m n h = ground arith

either : (is : IntSet) {v x : ℤ} → (x ≡ v) ⊎ Member is x → Member is v → Member is x
either is (inl e) (i, h, f) = (i, h, f ∙ sym e)
either is (inr m) _ = m

-- What `search` says is whether the value is a member.
Member-Answers : (is : IntSet) (v : ℤ) (r : Bool × ℕ) → Answers is v r → (r.0 ≡ true) ↔ Member is v
Member-Answers is v (true, p) (h, e) = (λ _. (p, h, e), λ _. refl)
Member-Answers is v (false, p) (h, l, u) = (λ e. cc, λ m. absurd (outside m))
  where
    outside : Member is v → ⊥
    outside (i, k, e) = grind (arith, l i, u i, parts_of_eq (get is i) v e)

-- An element needs no wider encoding than the set has.
Member-encoding : (is : IntSet) (x : ℤ) → IsValid is → Member is x → value_encoding x ≤ is.encoding
Member-encoding is x valid (i, h, e) =
    Fits-value_encoding x is.encoding valid.encoded
      (rw (← e) (unfold get in get_encoded-Fits is i is.encoding valid.encoded))

module _ (is : IntSet) (v : ℤ) (valid : IsValid is) where
  search-Member : ((search is v).0 ≡ true) ↔ Member is v
  search-Member = Member-Answers is v (search is v) (search-Answers is v valid.ascending)

  -- On a well-formed set intsetFind says whether the value is a member.
  pub find-Member : (find is v ≡ true) ↔ Member is v
  unfolding find
  find-Member = (
    λ e. search-Member.0 (and_right (leb (value_encoding v) is.encoding) (search is v).0 e),
    λ m. rw (le→leb _ _ (Member-encoding is v valid m), search-Member.1 m),
  )

-- What an operation of the set promises: the new set is well formed, it has no more than `limit`
-- elements, and they are what `P` says.
pub record Becomes (t : IntSet) (limit : ℕ) (P : ℤ → Type 0) : Type 0 where
  pub valid : IsValid t
  pub limited : t.length ≤ limit
  pub members : (x : ℤ) → Member t x ↔ P x

module _ (a : Allocator) (is : IntSet) (v : ℤ) (valid : IsValid is) where
  module _ (int64 : Fits 8 v) (short : is.length + 1 < max_length) where
    -- The set after an insertion at the position that splits it.
    grown :
        (t : IntSet) (p : ℕ)
        → InsertedAt is v p t
        → Answers is v (false, p)
        → IsEncoding t.encoding
        → t.size ≡ (is.length + 1) * t.encoding
        → Becomes t (is.length + 1) (λ x. (x ≡ v) ⊎ Member is x)
    grown t p ins split enc sized = record {
      valid = record {
        encoded = enc;
        sized = sized ∙ ap (λ n. n * t.encoding) (sym ins.longer);
        short = omega (arith, ins.longer);
        ascending = InsertedAt-IsAscending is t v p ins valid.ascending split;
      };
      limited = omega (arith, ins.longer);
      members = Member-InsertedAt is t v p ins;
    }

    upgraded-Becomes :
        is.encoding < value_encoding v
        → Becomes (upgrade_and_add a is v) (is.length + 1) (λ x. (x ≡ v) ⊎ Member is x)
    upgraded-Becomes wider =
        let u = upgrade_and_add-Upgrades a is v valid int64 wider short in
        grown _ u.at u.inserted u.split (rw (u.encoding) (value_encoding-IsEncoding v))
          (rw (u.encoding) (u.size))

    inserted-Becomes :
        (p : ℕ) (narrow : value_encoding v ≤ is.encoding) (split : Answers is v (false, p))
        → Becomes
            (inserted a is valid v p
              (value_encoding-Fits v is.encoding valid.encoded int64 narrow)
              (split.0)
              short)
            (is.length + 1)
            (λ x. (x ≡ v) ⊎ Member is x)
    inserted-Becomes p narrow split =
        let fits = value_encoding-Fits v is.encoding valid.encoded int64 narrow in
        let (e, l, s) = inserted_header a is valid v p fits (split.0) short in
        grown _ p (inserted-InsertedAt a is valid v p fits (split.0) short) split
          (rw e valid.encoded) (rw e s)

    -- intsetAdd of a 64-bit integer to a well-formed set that is short enough leaves a well-formed
    -- set with that value and the old ones, also when it widens the set, and reports success
    -- exactly when the value was not there.
    pub add-Becomes :
        Becomes (add a is v).0 (is.length + 1) (λ x. (x ≡ v) ⊎ Member is x)
        × (((add a is v).1 ≡ true) ↔ (¬ Member is v))
    unfolding add
    add-Becomes = elim (Bool-cases (ltb is.encoding (value_encoding v))) [
      | inl e ↦
          let wider : is.encoding < value_encoding v = ltb→lt _ _ e in
          rw e (
            upgraded-Becomes wider,
            ((λ _ m. absurd (omega (arith, Member-encoding is v valid m))), λ _. refl),
          )
      | inr e ↦
          let narrow : value_encoding v ≤ is.encoding = ltb→le _ _ e in
          rw e (elim (Bool-cases (search is v).0) [
            | inl f ↦
                let here = (search-Member is v valid).0 f in
                rw f (same here, ((λ g. cc), λ n. absurd (n here)))
            | inr f ↦ rw f (
              inserted-Becomes (search is v).1 narrow
                  (rw f at (search-Answers is v valid.ascending)),
              ((λ g m. cc ((search-Member is v valid).1 m)), λ n. refl),
            )
          ])
    ]
      where
        same : Member is v → Becomes is (is.length + 1) (λ x. (x ≡ v) ⊎ Member is x)
        same m = record {
          valid = valid;
          limited = omega arith;
          members = λ x. ((λ h. inr h), λ h. either is h m);
        }

  -- intsetRemove leaves a well-formed set without the value and with every other member, and
  -- reports success exactly when the value was there.
  pub remove-Becomes :
      Becomes (remove a is v).0 is.length (λ x. (x ≢ v) × Member is x)
      × (((remove a is v).1 ≡ true) ↔ Member is v)
  unfolding remove
  remove-Becomes = elim (Bool-cases (search is v).0) [
    | inl f ↦
        let here = (search-Member is v valid).0 f in
        let found : Answers is v (true, (search is v).1) =
          rw f at (search-Answers is v valid.ascending) in
        rw (f, le→leb _ _ (Member-encoding is v valid here))
          (shrunk (search is v).1 found, ((λ _. here), λ _. refl))
    | inr f ↦
        let absent : ¬ Member is v = λ m. cc ((search-Member is v valid).1 m) in
        rw (f, and_false (leb (value_encoding v) is.encoding))
          (unchanged absent, ((λ e. cc), λ m. absurd (absent m)))
  ]
    where
      unchanged : ¬ Member is v → Becomes is is.length (λ x. (x ≢ v) × Member is x)
      unchanged absent = record {
        valid = valid;
        limited = omega arith;
        members = λ x. ((λ m. ((λ e. absent (m.0, m.1, m.2 ∙ e)), m)), λ h. h.1);
      }

      shrunk :
          (p : ℕ) (found : Answers is v (true, p))
          → Becomes (removed a is valid p (found.0)) is.length (λ x. (x ≢ v) × Member is x)
      shrunk p found =
          let (e, l, s) = removed_header a is valid p (found.0) in
          let rem = removed-RemovedAt a is valid p (found.0) in
          record {
            valid = record {
              encoded = rw e valid.encoded;
              sized = s;
              short = omega (arith, l, valid.short);
              ascending = RemovedAt-IsAscending is _ p rem valid.ascending;
            };
            limited = omega (arith, l);
            members = rw (← found.1) (Member-RemovedAt is _ p rem valid.ascending);
          }
