-- ===== src/Zipmap/History.antt =====
-- Any sequence of calls on a new zipmap, against a map that is the list of the calls.
use libredis_a.Common.{
  ℕ, ◌+◌, ◌≤◌, ◌<◌, ◌^◌, ◌≡◌, refl, ap, ◌∙◌, Bool, Option, none, some, List, [], ◌∷◌, length,
  if◌then◌else◌, ◌>>=◌, is_some, inl, arith,
}
use libredis_a.Common.Blocks.{IsRealloc}
use libredis_a.Zipmap.{new, get, exists, set, delete}
use libredis_a.Zipmap.Layout.{Entry, same_string}
use libredis_a.Zipmap.Entries.{IsZipmap, value_of, get_lem, exists_lem}
use libredis_a.Zipmap.Delete.{Becomes, delete-Becomes}
use libredis_a.Zipmap.Set.{entry_size}
use libredis_a.Zipmap.Update.{set-Becomes}
use libredis_a.Zipmap.Walk.{Counted, entry_count-Counted}

pub data Call : Type 0 where
  set_call : List ℕ → List ℕ → Call
  delete_call : List ℕ → Call

-- The bytes that the sets of a sequence can ask for.
abbrev pub bytes_for : List Call → ℕ
bytes_for [] = 2
bytes_for (set_call key val ∷ cs) = bytes_for cs + entry_size key val
bytes_for (delete_call key ∷ cs) = bytes_for cs

-- The map of the calls; the last call stands first.
unfoldable pub meaning : List Call → List ℕ → Option (List ℕ)
meaning [] q = none
meaning (set_call key val ∷ cs) q = if same_string key q then some val else meaning cs q
meaning (delete_call key ∷ cs) q = if same_string key q then none else meaning cs q

module _ (realloc : List ℕ → ℕ → List ℕ) where
  unfoldable pub step : Call → List ℕ → Option (List ℕ × Bool)
  step (set_call key val) zm = set realloc zm key val
  step (delete_call key) zm = delete realloc zm key

  unfoldable pub run : List Call → Option (List ℕ)
  run [] = some new
  run (c ∷ cs) = run cs >>= λ zm. step c zm >>= λ r. some (r.0)

-- A zipmap with what it answers for every key.
pub record Holds (r : Option (List ℕ)) (m : List ℕ → Option (List ℕ)) (bound : ℕ) : Type 0 where
  pub zm : List ℕ
  pub entries : List Entry
  pub is : r ≡ some zm
  pub valid : IsZipmap zm entries
  pub bounded : length zm ≤ bound
  pub values : (q : List ℕ) → value_of q entries ≡ m q
  pub gets : (q : List ℕ) → get zm q ≡ some (m q)
  pub finds : (q : List ℕ) → exists zm q ≡ some (is_some (m q))
  pub counts : Counted zm entries

module _ (realloc : List ℕ → ℕ → List ℕ) (library : IsRealloc realloc) where
  settled :
      (zm : List ℕ) (r : Option (List ℕ)) (es : List Entry) (m : List ℕ → Option (List ℕ))
      (bound : ℕ)
      → r ≡ some zm
      → IsZipmap zm es
      → length zm ≤ bound
      → ((q : List ℕ) → value_of q es ≡ m q)
      → Holds r m bound
  settled zm r es m bound is z b v = record {
    zm = zm;
    entries = es;
    is = is;
    valid = z;
    bounded = b;
    values = v;
    gets = λ q. get_lem zm es z q ∙ ap (λ o. some o) (v q);
    finds = λ q. exists_lem zm es z q ∙ ap (λ o. some (is_some o)) (v q);
    counts = entry_count-Counted zm es z;
  }

  -- A call on a zipmap.
  after_call :
      (c : Call) (cs : List Call) (m w : List ℕ → Option (List ℕ)) (answer : Bool)
      (bound limit final : ℕ) (h : Holds (run realloc cs) (meaning cs) bound)
      → Becomes (step realloc c h.zm) answer limit w
      → ((q : List ℕ) → w q ≡ m q)
      → limit ≤ final
      → Holds (run realloc (c ∷ cs)) m final
  unfolding run
  after_call c cs m w answer bound limit final h b e l =
      settled b.after _ b.entries m final (rw (h.is, b.is) refl) b.valid
        (omega (arith, b.bounded, l)) (λ q. b.values q ∙ e q)

  -- With a zrealloc that keeps the bytes that both sizes share, any sequence of zipmapSet and
  -- zipmapDel on a new zipmap that asks for less than 2^32 bytes leaves a well-formed one, in
  -- which zipmapGet and zipmapExists find under every key the value that it was last set to and
  -- not deleted since, and zipmapLen answers the number of entries.
  pub run-Holds :
      (cs : List Call) → bytes_for cs < 2 ^ 32 → Holds (run realloc cs) (meaning cs) (bytes_for cs)
  unfolding meaning run step
  run-Holds [] room =
      settled new _ [] (λ q. none) 2 refl
        (record { count = 0; is = refl; sized = omega arith; distinct = tt; counted = inl refl })
        (omega arith) (λ q. refl)
  run-Holds (set_call key val ∷ cs) room =
      let h = run-Holds cs (omega (arith, room)) in
      let fits : length h.zm + entry_size key val < 2 ^ 32 = omega (arith, room, h.bounded) in
      after_call (set_call key val) cs (meaning (set_call key val ∷ cs)) _ _ _ _ _ h
        (set-Becomes realloc library h.zm key val fits h.entries h.valid)
        (λ q. ap (λ o. if same_string key q then some val else o) (h.values q))
        (omega (arith, h.bounded))
  run-Holds (delete_call key ∷ cs) room =
      let h = run-Holds cs room in
      after_call (delete_call key) cs (meaning (delete_call key ∷ cs)) _ _ _ _ _ h
        (delete-Becomes realloc library h.zm key h.entries h.valid)
        (λ q. ap (λ o. if same_string key q then none else o) (h.values q)) (h.bounded)
