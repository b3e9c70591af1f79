-- ===== src/Config/Storage.antt =====
-- storage.go: which storage paths are kept.
use open_v_center_agent_hype.Base.{
  ℕ, ◌≡◌, ◌⊎◌, inl, inr, refl, ap, Bool, true, false, not, ◌&&◌, List, [], ◌∷◌, any, tally, arith,
  if_elim, Bool-cases, sym, Text, blank, text_eq, trim_space,
}
use open_v_center_agent_hype.Config.{
  Host, normalize_storage_path, storage_volume, keep_storage, parse_additional_storage, split,
}

text_eq_sound : (s t : Text) → text_eq s t ≡ true → s ≡ t
text_eq_sound [] [] h = refl
text_eq_sound [] (d ∷ t) h = ground arith
text_eq_sound (c ∷ s) [] h = ground arith
text_eq_sound (c ∷ s) (d ∷ t) h =
    let tail = text_eq_sound s t (ground arith) in
    let head : c ≡ d = ground arith in rw (head, tail) refl

module _ (os : Host) where
  -- The part names a path on the volume.
  abbrev pub on_volume : Text → Text → Bool
  on_volume v part =
      not (blank (normalize_storage_path os part))
      && text_eq v (storage_volume os (normalize_storage_path os part))

  abbrev pub kept_on : Text → List Text → ℕ
  kept_on v = tally (λ p. text_eq v (storage_volume os p))

  abbrev pub once_if : Bool → ℕ
  once_if true = 1
  once_if false = 0

  -- What is kept from a part on, from what is kept after it, whether its volume is then seen or not.
  keep_step :
      (v : Text) (seen : List Text) (part : Text) (parts : List Text)
      → blank v ≡ false
      → ((seen' : List Text)
          → kept_on v (keep_storage os seen' parts)
            ≡ once_if (not (any (text_eq v) seen') && any (on_volume v) parts))
      → (text_eq v (storage_volume os (normalize_storage_path os part)) ≡ true)
        ⊎ (text_eq v (storage_volume os (normalize_storage_path os part)) ≡ false)
      → kept_on v (keep_storage os seen (part ∷ parts))
        ≡ once_if (not (any (text_eq v) seen) && any (on_volume v) (part ∷ parts))
  unfolding keep_storage
  keep_step v seen part parts h ih (inl e) =
      let vol = storage_volume os (normalize_storage_path os part) in
      let same = text_eq_sound v vol e in
      let given : blank vol ≡ false = rw (sym same) h in
      let seen_as : any (text_eq vol) seen ≡ any (text_eq v) seen =
        ap (λ x. any (text_eq x) seen) (sym same) in
      ground (arith, e, given, seen_as, ih seen, ih (vol ∷ seen))
  keep_step v seen part parts h ih (inr e) =
      let vol = storage_volume os (normalize_storage_path os part) in
      ground (arith, e, ih seen, ih (vol ∷ seen))

  keep_storage-once :
      (v : Text) (seen parts : List Text)
      → blank v ≡ false
      → kept_on v (keep_storage os seen parts)
        ≡ once_if (not (any (text_eq v) seen) && any (on_volume v) parts)
  unfolding keep_storage
  keep_storage-once v seen [] h = ground arith
  keep_storage-once v seen (part ∷ parts) h =
      keep_step v seen part parts h (λ s. keep_storage-once v s parts h)
        (Bool-cases (text_eq v (storage_volume os (normalize_storage_path os part))))

  -- Of the paths on one named volume exactly one is kept if a part of the text names such a path, and none
  -- otherwise.
  parse_additional_storage-once :
      (v raw : Text)
      → blank v ≡ false
      → kept_on v (parse_additional_storage os raw)
        ≡ once_if (not (blank (trim_space raw)) && any (on_volume v) (split (trim_space raw)))
  unfolding parse_additional_storage
  parse_additional_storage-once v raw h =
      if_elim
        (λ ps.
          kept_on v ps
          ≡ once_if (not (blank (trim_space raw)) && any (on_volume v) (split (trim_space raw))))
        (blank (trim_space raw)) (λ e. rw e refl)
        (λ e. rw e (keep_storage-once v [] (split (trim_space raw)) h))
