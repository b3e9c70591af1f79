-- ===== src/Batch/Validation.antt =====
-- vm_management.go: the check of a batch's machines.
use open_v_center_agent_hype.Base.{
  ℕ, suc, ◌≡◌, ◌↔◌, refl, ap, Bool, true, false, List, [], ◌∷◌, map, any, All, arith, if◌then◌else◌,
  Text, text_eq, to_lower, blank, trim_space,
}
use mathlib.Core.Path.{subst}
use open_v_center_agent_hype.Batch.{
  VmBatchTarget, Refused, Checked, refused, accepted, trimmed, add_target, validate,
  is_canonical_guid,
}

-- A canonical id and a name.
pub record IsUsable (t : VmBatchTarget) : Type 0 where
  pub id_given : blank t.vm_id ≡ false
  pub canonical : is_canonical_guid t.vm_id ≡ true
  pub named : blank t.vm_name ≡ false

-- The id is none of those seen, whatever the case of its letters.
abbrev pub IsNew : List Text → VmBatchTarget → Type 0
IsNew seen t = any (text_eq (to_lower t.vm_id)) seen ≡ false

abbrev pub AllDistinct : List VmBatchTarget → Type 0
AllDistinct [] = Unit
AllDistinct (t ∷ ts) = All (IsNew (to_lower t.vm_id ∷ [])) ts × AllDistinct ts

-- What validation asks of the trimmed machines after those seen.
pub record IsValid (seen : List Text) (ts : List VmBatchTarget) : Type 0 where
  pub usable : All IsUsable ts
  pub distinct : AllDistinct ts
  pub unseen : All (IsNew seen) ts

IsNew-cons :
    (id : Text) (seen : List Text) (ts : List VmBatchTarget)
    → All (IsNew (id ∷ seen)) ts ↔ (All (IsNew (id ∷ [])) ts × All (IsNew seen) ts)
IsNew-cons id seen [] = ground arith
IsNew-cons id seen (t ∷ ts) = ground (arith, IsNew-cons id seen ts)

IsValid-cons :
    (seen : List Text) (t : VmBatchTarget) (ts : List VmBatchTarget)
    → IsUsable t
    → IsNew seen t
    → IsValid (to_lower t.vm_id ∷ seen) ts ↔ IsValid seen (t ∷ ts)
IsValid-cons seen t ts u n =
    let c = IsNew-cons (to_lower t.vm_id) seen ts in
    (
      λ v. record {
        usable = (u, v.usable);
        distinct = ((c.0 v.unseen).0, v.distinct);
        unseen = (n, (c.0 v.unseen).1);
      },
      λ v. record {
        usable = v.usable.1;
        distinct = v.distinct.1;
        unseen = c.1 (v.distinct.0, v.unseen.1);
      },
    )

-- A test that refuses, passed.
guard :
    (b : Bool) (e : Refused) (r : Checked) {out : List VmBatchTarget}
    → (if b then refused e else r) ≡ accepted out
    → (b ≡ false) × (r ≡ accepted out)
guard b e r h = ground arith

added :
    (t : VmBatchTarget) (r : Checked) {out : List VmBatchTarget}
    → add_target t r ≡ accepted out
    → (rest : List VmBatchTarget) × (r ≡ accepted rest) × (out ≡ t ∷ rest)
added t (refused e) h = ground arith
added t (accepted rest) h = (rest, refl, ground arith)

validate-accepts :
    (i : ℕ) (seen : List Text) (ts out : List VmBatchTarget)
    → validate i seen ts ≡ accepted out
    → (out ≡ map trimmed ts) × IsValid seen out
unfolding validate
validate-accepts i seen [] out h = ground arith
validate-accepts i seen (t ∷ ts) out h =
    let id = guard _ _ _ h in
    let canonical = guard _ _ _ id.1 in
    let name = guard _ _ _ canonical.1 in
    let new = guard _ _ _ name.1 in
    let (rest, e, same) = added _ _ new.1 in
    let ih = validate-accepts (suc i) _ ts rest e in
    let usable : IsUsable (trimmed t) = record {
      id_given = id.0;
      canonical = ground arith;
      named = name.0;
    } in
    rw same (ap (λ r. trimmed t ∷ r) ih.0, (IsValid-cons seen (trimmed t) rest usable new.0).0 ih.1)

validate-IsValid :
    (i : ℕ) (seen : List Text) (ts : List VmBatchTarget)
    → IsValid seen (map trimmed ts)
    → validate i seen ts ≡ accepted (map trimmed ts)
unfolding validate
validate-IsValid i seen [] h = refl
validate-IsValid i seen (t ∷ ts) h =
    let valid = (IsValid-cons seen (trimmed t) (map trimmed ts) h.usable.0 h.unseen.0).1 h in
    ground (arith, validate-IsValid (suc i) (to_lower (trim_space t.vm_id) ∷ seen) ts valid)

-- A batch is accepted exactly as its machines with their texts trimmed, when each of these has a canonical
-- id and a name and no two ids are equal up to the case of their letters.
pub validate-iff-IsValid :
    (ts out : List VmBatchTarget)
    → (validate 0 [] ts ≡ accepted out) ↔ ((out ≡ map trimmed ts) × IsValid [] out)
validate-iff-IsValid ts out = (
  validate-accepts 0 [] ts out,
  λ h. rw h.0 (validate-IsValid 0 [] ts (subst (λ x. IsValid [] x) h.0 h.1)),
)
