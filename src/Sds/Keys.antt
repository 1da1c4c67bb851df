-- ===== src/Sds/Keys.antt =====
-- Strings are lawful keys of a dictionary.
use libredis_a.Common.{
  ◌≡◌, refl, sym, ap, ◌∙◌, ◌↔◌, true, false, length, ◌==◌, ==_iff, Bool-cases, inl, inr,
}
use libredis_a.Util.{same_bytes}
use libredis_a.Util.Canonical.{same_bytes_self, same_bytes_eq}
use libredis_a.Dict.{DictType}
use libredis_a.Sds.{Sds, version_change, sds_key_compare, gen_hash, sds_hash}

pub compare_iff : (a b : Sds) → (sds_key_compare a b ≡ true) ↔ (a.bytes ≡ b.bytes)
unfolding sds_key_compare
compare_iff a b = (
  λ h. elim (Bool-cases (length a.bytes == length b.bytes)) [
    | inl e ↦ same_bytes_eq a.bytes b.bytes (rw e at h)
    | inr e ↦ absurd (cc (rw e at h))
  ],
  λ h.
      rw
        (
          (==_iff (length a.bytes) (length b.bytes)).1 (ap length h),
          ap (λ s. same_bytes s b.bytes) h,
          same_bytes_self b.bytes,
        )
        refl,
)

compare_false : (a b : Sds) → (sds_key_compare a b ≡ true → ⊥) → sds_key_compare a b ≡ false
compare_false a b n = elim (Bool-cases (sds_key_compare a b)) [ inl e ↦ absurd (n e) | inr e ↦ e ]

pub compare_same :
    (a b c d : Sds)
    → (a.bytes ≡ c.bytes)
    → (b.bytes ≡ d.bytes)
    → sds_key_compare a b ≡ sds_key_compare c d
unfolding sds_key_compare
compare_same a b c d p q = rw (p, q) refl

pub compare_sym_lem : (a b : Sds) → sds_key_compare a b ≡ sds_key_compare b a
compare_sym_lem a b = elim (Bool-cases (sds_key_compare b a)) [
  | inl e ↦ (compare_iff a b).1 (sym ((compare_iff b a).0 e)) ∙ sym e
  | inr e ↦
      compare_false a b (λ h. cc (sym e ∙ (compare_iff b a).1 (sym ((compare_iff a b).0 h))))
      ∙ sym e
]

pub hash_same : (a b : Sds) → sds_key_compare a b ≡ true → sds_hash a ≡ sds_hash b
unfolding sds_hash
hash_same a b h = ap (λ s. gen_hash s 5381) ((compare_iff a b).0 h)

-- `dbDictType` of redis.c, with the version of a key changed as `dictUpdateKey` does it.
abbrev pub db_dict_type : DictType Sds
db_dict_type = record {
  hash_function = sds_hash;
  key_compare = sds_key_compare;
  change_version = λ a b. version_change a b.version;
  compare_refl = λ a. (compare_iff a a).1 refl;
  compare_trans = λ a b c h. compare_same a c b c ((compare_iff a b).0 h) refl;
  compare_sym = compare_sym_lem;
  compare_hash = hash_same;
  change_compare = λ a b. (compare_iff (version_change a b.version) a).1 refl;
}
