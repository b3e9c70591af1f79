-- ===== src/Download/Progress.antt =====
-- downloader.go: what the reports of a download say.
use open_v_center_agent_hype.Base.{
  none, ℕ, Option, some, ap, String, Bool, true, false, ◌||◌, ltb, leb, if◌then◌else◌, if_elim, ◌≡◌,
  refl, List, [], ◌∷◌, ◌++◌,
}
use open_v_center_agent_hype.Download.{
  Bytes, Chunk, ProgressWriter, write, copy, Reply, unreachable, answers, Downloaded, received,
  download_file, fresh,
}

abbrev pub all_bytes : List Chunk → Bytes
all_bytes [] = []
all_bytes (c ∷ cs) = c.bytes ++ all_bytes cs

-- The file holds what was sent.
pub copy-bytes : (pw : ProgressWriter) (cs : List Chunk) → (copy pw cs).0 ≡ all_bytes cs
unfolding copy
copy-bytes pw [] = refl
copy-bytes pw (c ∷ cs) = rw (copy-bytes (write c pw).0 cs) refl

-- A download ends with an error, or with the whole body in the file.
pub data DownloadEnds (reply : Reply) (r : Downloaded) : Type 0 where
  broken_off : (e : String) → r.error ≡ some e → DownloadEnds reply r
  arrived :
      {status : ℕ} {chunks : List Chunk}
      → reply ≡ answers status chunks true
      → r.error ≡ none
      → r.file ≡ some (all_bytes chunks)
      → DownloadEnds reply r

received-DownloadEnds :
    (total : Option ℕ) (reply : Reply) → DownloadEnds reply (received total reply)
unfolding received
received-DownloadEnds total unreachable = broken_off _ refl
received-DownloadEnds total (answers status chunks complete) =
    if_elim (DownloadEnds (answers status chunks complete)) (ltb status 200 || leb 300 status)
      (λ _. broken_off _ refl) λ _. finished complete
  where
    finished :
        (b : Bool)
        → DownloadEnds (answers status chunks b) (record {
          file = some (copy (fresh total) chunks).0;
          reports = (copy (fresh total) chunks).1;
          error = if b then none else some "failed to write download to disk";
        })
    finished true = arrived refl refl (ap some (copy-bytes (fresh total) chunks))
    finished false = broken_off _ refl

pub download_file-DownloadEnds :
    (total : Option ℕ) (creates : Bool) (old : Option Bytes) (reply : Reply)
    → DownloadEnds reply (download_file total creates old reply)
unfolding download_file
download_file-DownloadEnds total creates old reply =
    if_elim (DownloadEnds reply) creates (λ _. received-DownloadEnds total reply)
      λ _. broken_off _ refl
