-- ===== src/Download/Placement.antt =====
-- placement.go: what a placement leaves.
use open_v_center_agent_hype.Base.{
  ◌≡◌, refl, ◌⊎◌, inl, inr, Bool, Option, none, some, String, if_elim, not,
}
use open_v_center_agent_hype.Download.{
  Bytes, Destination, missing, directory, regular, Placing, Placed, place_file_with_overwrite,
  renamed, cleared,
}

-- A file that was placed is the destination's, and is temporary no more; or the placement fails and
-- the destination is what it was or missing.
pub data PlaceEnds (b : Bytes) (dest : Destination) : Placed → Type 0 where
  placed : PlaceEnds b dest (record { tmp = none; dest = regular b; error = none })
  unplaced :
      {now : Destination} (e : String) (tmp : Option Bytes)
      → (now ≡ dest) ⊎ (now ≡ missing)
      → PlaceEnds b dest (record { tmp = tmp; dest = now; error = some e })

module _ (p : Placing) (b : Bytes) where
  renamed-PlaceEnds : (dest : Destination) → PlaceEnds b dest (renamed p (some b) missing)
  unfolding renamed
  renamed-PlaceEnds dest =
      if_elim (PlaceEnds b dest) p.renames (λ _. placed) λ _. unplaced _ _ (inr refl)

  cleared-PlaceEnds :
      (overwrite : Bool) (dest : Destination) → PlaceEnds b dest (cleared p overwrite (some b) dest)
  unfolding cleared
  cleared-PlaceEnds overwrite missing = renamed-PlaceEnds missing
  cleared-PlaceEnds overwrite directory = unplaced _ _ (inl refl)
  cleared-PlaceEnds overwrite (regular old) =
      if_elim (PlaceEnds b (regular old)) (not overwrite) (λ _. unplaced _ _ (inl refl))
        λ _.
          if_elim (PlaceEnds b (regular old)) (not p.removes) (λ _. unplaced _ _ (inl refl))
            λ _. renamed-PlaceEnds (regular old)

  pub place_file-PlaceEnds :
      (overwrite : Bool) (dest : Destination)
      → PlaceEnds b dest (place_file_with_overwrite p overwrite (some b) dest)
  unfolding place_file_with_overwrite
  place_file-PlaceEnds overwrite dest =
      if_elim (PlaceEnds b dest) p.makes_dirs (λ _. cleared-PlaceEnds overwrite dest)
        λ _. unplaced _ _ (inl refl)
