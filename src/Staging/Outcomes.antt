-- ===== src/Staging/Outcomes.antt =====
-- agent_upgrade.go: how an upgrade's download ends, and what the worker makes of it.
use open_v_center_agent_hype.Download.Placement.{PlaceEnds, placed, unplaced, place_file-PlaceEnds}
use open_v_center_agent_hype.Base.{
  inl, if_elim, ℕ, String, ◌≡◌, ◌⊎◌, true, Option, none, some, List, [], ◌∷◌, ◌++◌, map, length,
  All, arith, eq_iff, refl, not, ◌&&◌, ◌||◌, ◌==◌, inr, if◌then◌else◌,
}
use open_v_center_agent_hype.Tasks.Response.{TaskResponse, terminal_status}
use open_v_center_agent_hype.Worker.{execute_artifact_download}
use open_v_center_agent_hype.Download.{
  get_content_length, Downloaded, Placed, Bytes, Chunk, answers, Destination, missing, regular,
}
use open_v_center_agent_hype.Download.Progress.{
  download_file-DownloadEnds, arrived, broken_off, DownloadEnds, all_bytes,
}
use open_v_center_agent_hype.Staging.{
  downloads, download_reports, too_big, handle_agent_upgrade, fetched, verify, stage, begin,
  refused, accepted, progress_response, World, Disk, Staged, StagedResult, AgentUpgradePayload,
  PendingUpgradeResponse, failure_response, staged_response, abandon, placed as placed_lem,
  placed as placed_lem,
}

abbrev InProgress : TaskResponse StagedResult → Type 0
InProgress r = terminal_status r ≡ "in_progress"

All-append {ℓ} :
    {A : Type ℓ} (P : A → Type 0) (xs ys : List A) → All P xs → All P ys → All P (xs ++ ys)
All-append P [] ys h k = k
All-append P (x ∷ xs) ys h k = (h.0, All-append P xs ys h.1 k)

All-map {ℓ κ} :
    {A : Type ℓ} {B : Type κ} (P : B → Type 0) (f : A → B) (xs : List A)
    → ((x : A) → P (f x))
    → All P (map f xs)
All-map P f [] h = tt
All-map P f (x ∷ xs) h = (h x, All-map P f xs h)

-- The worker takes the last response, when those before it are in progress and it is terminal.
execute-last :
    (timed_out last : TaskResponse StagedResult) (before : List (TaskResponse StagedResult))
    → All InProgress before
    → (terminal_status last ≡ "completed") ⊎ (terminal_status last ≡ "failed")
    → execute_artifact_download timed_out (before ++ last ∷ []) ≡ last
unfolding execute_artifact_download
execute-last timed_out last [] h t =
    ground
      (arith, eq_iff (terminal_status last) "completed", eq_iff (terminal_status last) "failed")
execute-last timed_out last (r ∷ before) h t = rw h.0 (execute-last timed_out last before h.1 t)

module _ (w : World) (task_id : String) (d : Disk) where
  -- The binary that was sent, whole, under a checksum that matches, if there is one.
  pub record Verified (p : AgentUpgradePayload) (b : Bytes) : Type 0 where
    pub status : ℕ
    pub chunks : List Chunk
    pub sent : w.reply ≡ answers status chunks true
    pub whole : b ≡ all_bytes chunks
    pub checked : (p.checksum_sha256 ≡ "") ⊎ (w.equal_fold (w.sha256 b) p.checksum_sha256 ≡ true)

  -- A failure leaves the pending response, and the binary or none; the temporary file goes if the
  -- operating system removes it.
  pub record Kept (now : Disk) : Type 0 where
    pub same_pending : now.pending ≡ d.pending
    pub same_binary : (now.binary ≡ d.binary) ⊎ (now.binary ≡ missing)
    pub no_tmp : w.removes_tmp ≡ true → d.tmp ≡ none → now.tmp ≡ none

  -- What the new agent is to confirm, if the file could be written.
  abbrev pub confirmed : AgentUpgradePayload → Bytes → Option PendingUpgradeResponse
  confirmed p b =
      if w.writes_pending
      then some (record {
        task_id = task_id;
        version = p.version;
        size_bytes = length b;
        old_version = w.agent_version;
      })
      else d.pending

  pub data Ends : Staged → Type 0 where
    stages :
        (p : AgentUpgradePayload) (b : Bytes) (before : List (TaskResponse StagedResult))
        → w.payload ≡ some p
        → Verified p b
        → All InProgress before
        → Ends (record {
          disk = record { tmp = none; binary = regular b; pending = confirmed p b };
          responses = before ++ staged_response w task_id p (length b) ∷ [];
        })
    fails :
        (e : String) (before : List (TaskResponse StagedResult)) (now : Disk)
        → Kept now
        → All InProgress before
        → Ends (record { disk = now; responses = before ++ failure_response w task_id e ∷ [] })

  abandon-Ends :
      (tmp : Option Bytes) (binary : Destination) (before : List (TaskResponse StagedResult))
      (e : String)
      → (binary ≡ d.binary) ⊎ (binary ≡ missing)
      → All InProgress before
      → Ends (abandon w task_id (record d { tmp = tmp; binary = binary }) before e)
  unfolding abandon
  abandon-Ends tmp binary before e same h = fails e before _ (ground arith) h

  -- The disk with the downloaded file.
  abbrev with_tmp : Bytes → Disk
  with_tmp b = record d { tmp = some b }

  placed-Ends :
      (p : AgentUpgradePayload) (b : Bytes) (before : List (TaskResponse StagedResult)) {r : Placed}
      → PlaceEnds b d.binary r
      → w.payload ≡ some p
      → Verified p b
      → All InProgress before
      → Ends (placed_lem w task_id p (with_tmp b) before (length b) r)
  unfolding placed_lem
  placed-Ends p b before placed e v h = stages p b before e v h
  placed-Ends p b before (unplaced {now} x tmp same) e v h = abandon-Ends tmp now before _ same h

  snoc-InProgress :
      (before : List (TaskResponse StagedResult)) (percent : ℕ) (message : String)
      → All InProgress before
      → All InProgress (before ++ progress_response w task_id percent message ∷ [])
  unfolding terminal_status
  snoc-InProgress before percent message h = All-append InProgress before _ h (refl, tt)

  stage-Ends :
      (p : AgentUpgradePayload) (b : Bytes) (before : List (TaskResponse StagedResult))
      → w.payload ≡ some p
      → Verified p b
      → All InProgress before
      → Ends (stage w task_id p (with_tmp b) before)
  unfolding stage
  stage-Ends p b before e v h =
      placed-Ends p b _ (place_file-PlaceEnds w.placing b true d.binary) e v
        (snoc-InProgress before 95 "Staging new binary..." h)

  verify-Ends :
      (p : AgentUpgradePayload) (b : Bytes) (before : List (TaskResponse StagedResult)) {status : ℕ}
      {chunks : List Chunk}
      → w.payload ≡ some p
      → w.reply ≡ answers status chunks true
      → b ≡ all_bytes chunks
      → All InProgress before
      → Ends (verify w task_id p (with_tmp b) before)
  unfolding verify
  verify-Ends p b before {status} {chunks} e sent whole h =
      if_elim Ends (p.checksum_sha256 == "")
        (λ blank.
          stage-Ends p b before e (verified (inl ((eq_iff p.checksum_sha256 "").0 blank))) h)
        λ _.
          if_elim Ends (not w.reads_tmp)
            (λ _. abandon-Ends (some b) d.binary _ _ (inl refl) before')
            λ _.
              if_elim Ends (not (w.equal_fold (w.sha256 b) p.checksum_sha256))
                (λ _. abandon-Ends (some b) d.binary _ _ (inl refl) before')
                λ same. stage-Ends p b _ e (verified (inr (ground (arith, same)))) before'
    where
      before' :
          All InProgress (before ++ progress_response w task_id 92 "Verifying checksum..." ∷ [])
      before' = snoc-InProgress before 92 "Verifying checksum..." h

      verified :
          (p.checksum_sha256 ≡ "") ⊎ (w.equal_fold (w.sha256 b) p.checksum_sha256 ≡ true)
          → Verified p b
      verified c = record {
        status = status;
        chunks = chunks;
        sent = sent;
        whole = whole;
        checked = c;
      }

  fetched-Ends :
      (p : AgentUpgradePayload) (before : List (TaskResponse StagedResult)) {r : Downloaded}
      → DownloadEnds w.reply r
      → w.payload ≡ some p
      → All InProgress before
      → Ends (fetched w task_id p d before r)
  unfolding fetched
  fetched-Ends p before {r} (broken_off x broken) e h =
      rw broken (abandon-Ends r.file d.binary before _ (inl refl) h)
  fetched-Ends p before {r} (arrived {status} {chunks} sent fine whole) e h =
      rw (fine, whole)
        (if_elim Ends (w.stats && true) (λ _. verify-Ends p (all_bytes chunks) before e sent refl h)
          λ _. abandon-Ends (some (all_bytes chunks)) d.binary before _ (inl refl) h)

  begin-Ends : (p : AgentUpgradePayload) → w.payload ≡ some p → Ends (begin w task_id p d)
  unfolding begin terminal_status
  begin-Ends p e =
      if_elim Ends (too_big w task_id (get_content_length w.head) w.free_space)
        (λ _. abandon-Ends d.tmp d.binary _ _ (inl refl) (refl, tt))
        λ _.
          fetched-Ends p (download_reports w task_id d)
            (download_file-DownloadEnds none w.creates_tmp d.tmp w.reply) e
            (refl, All-map InProgress _ (downloads w task_id d).reports (λ n. refl))

  refused-Ends : (e : String) → Ends (refused w task_id d e)
  unfolding refused
  refused-Ends e = fails e [] d (ground arith) tt

  accepted-Ends : (o : Option AgentUpgradePayload) → w.payload ≡ o → Ends (accepted w task_id d o)
  unfolding accepted
  accepted-Ends none e = refused-Ends _
  accepted-Ends (some p) e =
      if_elim Ends (p.download_url == "" || p.version == "") (λ _. refused-Ends _)
        λ _.
          if_elim Ends (p.version == w.agent_version) (λ _. refused-Ends _)
            λ _. if_elim Ends (not w.knows_dir) (λ _. refused-Ends _) λ _. begin-Ends p e

  handle_agent_upgrade-Ends : Ends (handle_agent_upgrade w task_id d)
  unfolding handle_agent_upgrade
  handle_agent_upgrade-Ends = accepted-Ends w.payload refl

  -- What the worker's response says of the disk.
  pub data Told : String → Disk → Type 0 where
    told_staged :
        (p : AgentUpgradePayload) (b : Bytes)
        → w.payload ≡ some p
        → Verified p b
        → Told "completed" (record { tmp = none; binary = regular b; pending = confirmed p b })
    told_failed : {now : Disk} → Kept now → Told "failed" now

  Ends-Told :
      (timed_out : TaskResponse StagedResult) {s : Staged}
      → Ends s
      → Told (terminal_status (execute_artifact_download timed_out s.responses)) s.disk
  Ends-Told timed_out (stages p b before e v h) =
      rw
        (execute-last timed_out (staged_response w task_id p (length b)) before h
          (inl (unfold terminal_status in refl)))
        (unfold terminal_status in told_staged p b e v)
  Ends-Told timed_out (fails e before now k h) =
      rw
        (execute-last timed_out (failure_response w task_id e) before h
          (inr (unfold terminal_status in refl)))
        (unfold terminal_status in told_failed k)

  -- A worker that runs the agent's upgrade to its end answers with one of two things. Either the
  -- status is completed, and the binary for the new version is the whole body that the server sent,
  -- its checksum matches if one was given, no temporary file is left, and the pending response says
  -- what to confirm, if it could be written. Or the status is failed, the pending response is as it
  -- was, the binary is as it was or missing, and no temporary file is left if there was none and
  -- the operating system removes files.
  pub execute-handle_agent_upgrade :
      (timed_out : TaskResponse StagedResult)
      → Told
          (terminal_status
            (execute_artifact_download timed_out (handle_agent_upgrade w task_id d).responses))
          (handle_agent_upgrade w task_id d).disk
  execute-handle_agent_upgrade timed_out = Ends-Told timed_out handle_agent_upgrade-Ends
