-- ===== src/Staging.antt =====
-- internal/tasks/agent_upgrade.go: handleAgentUpgrade, which downloads the new agent, verifies and
-- stages it, and publishes its own responses. The network, the hash and the operating system answer
-- through `World`. A panic inside is not modelled.
pub mod Outcomes
use open_v_center_agent_hype.Base.{
  ℕ, ◌*◌, ◌/◌, String, Bool, true, false, not, ◌&&◌, ◌||◌, Option, none, some, List, [], ◌∷◌, ◌++◌,
  ◌==◌, map, ltb, length, if◌then◌else◌,
}
use open_v_center_agent_hype.Tasks.Functions.{artifact_download}
use open_v_center_agent_hype.Tasks.Response.{TaskResponse, Progress}
use open_v_center_agent_hype.Download.{
  Bytes, Reply, Downloaded, download_file, get_content_length, Destination, Placing, Placed,
  place_file_with_overwrite,
}

pub record AgentUpgradePayload : Type 0 where
  pub download_url : String
  pub checksum_sha256 : String
  pub version : String

-- The file that the new agent reads after the upgrade.
pub record PendingUpgradeResponse : Type 0 where
  pub task_id : String
  pub version : String
  pub size_bytes : ℕ
  pub old_version : String

-- The result of the terminal response.
pub record StagedResult : Type 0 where
  pub version : String
  pub old_version : String
  pub size_bytes : ℕ

-- The agent's directory: the temporary file, ovc-agent-<version>.exe, and the pending response.
pub record Disk : Type 0 where
  pub tmp : Option Bytes
  pub binary : Destination
  pub pending : Option PendingUpgradeResponse

-- `payload` is `none` where the parameters do not decode.
pub record World : Type 0 where
  pub payload : Option AgentUpgradePayload
  pub agent_version : String
  pub knows_dir : Bool
  pub head : Option (ℕ × Option ℕ)
  pub free_space : Option ℕ
  pub creates_tmp : Bool
  pub reply : Reply
  pub stats : Bool
  pub reads_tmp : Bool
  pub sha256 : Bytes → String
  pub equal_fold : String → String → Bool
  pub placing : Placing
  pub removes_tmp : Bool
  pub writes_pending : Bool
  pub now_text : String

pub record Staged : Type 0 where
  pub disk : Disk
  pub responses : List (TaskResponse StagedResult)

abbrev size_of : Option Bytes → ℕ
size_of none = 0
size_of (some b) = length b

abbrev pub exists_tmp : Option Bytes → Bool
exists_tmp none = false
exists_tmp (some b) = true

module _ (w : World) (task_id : String) where
  abbrev empty_response : TaskResponse StagedResult
  empty_response = record {
    task_id = task_id;
    task_type = artifact_download;
    function = "host_update_agent";
    status = "in_progress";
    result = none;
    progress = none;
    error = none;
    vm_id = "";
    vm_state = "";
    finished_at = "";
    internal_status = "";
  }

  abbrev pub progress_response : ℕ → String → TaskResponse StagedResult
  progress_response percent message = record empty_response {
    progress = some (record { percent = percent; message = message });
  }

  abbrev pub failure_response : String → TaskResponse StagedResult
  failure_response e = record empty_response {
    status = "failed";
    error = some e;
    finished_at = w.now_text;
  }

  abbrev pub staged_response : AgentUpgradePayload → ℕ → TaskResponse StagedResult
  staged_response p size = record empty_response {
    progress =
        some (record { percent = 99; message = "Agent binary downloaded, applying upgrade..." });
    result =
        some (record { version = p.version; old_version = w.agent_version; size_bytes = size });
    internal_status = "completed";
    finished_at = w.now_text;
  }

  -- The deferred removal of the temporary file, then the failure as the last response.
  abandon : Disk → List (TaskResponse StagedResult) → String → Staged
  abandon d before e = record {
    disk = if w.removes_tmp then record d { tmp = none } else d;
    responses = before ++ failure_response e ∷ [];
  }

  abbrev percent_done : Option ℕ → ℕ → ℕ
  percent_done none done = 0
  percent_done (some total) done = done * 90 / total

  -- The size is always passed on as unknown.
  abbrev downloads : Disk → Downloaded
  downloads d = download_file none w.creates_tmp d.tmp w.reply

  abbrev download_reports : Disk → List (TaskResponse StagedResult)
  download_reports d =
      progress_response 0 "Starting agent download..."
      ∷ map (λ n. progress_response (percent_done none n) "Downloading agent...")
          (downloads d).reports

  placed : AgentUpgradePayload → Disk → List (TaskResponse StagedResult) → ℕ → Placed → Staged
  placed p d before size r = elim r.error [
    | some e ↦ abandon (record d { tmp = r.tmp; binary = r.dest }) before "failed to stage binary"
    | none ↦ record {
      disk = record d {
        tmp = r.tmp;
        binary = r.dest;
        pending =
            if w.writes_pending
            then some (record {
              task_id = task_id;
              version = p.version;
              size_bytes = size;
              old_version = w.agent_version;
            })
            else d.pending;
      };
      responses = before ++ staged_response p size ∷ [];
    }
  ]

  stage : AgentUpgradePayload → Disk → List (TaskResponse StagedResult) → Staged
  stage p d before =
      placed p d (before ++ progress_response 95 "Staging new binary..." ∷ []) (size_of d.tmp)
        (place_file_with_overwrite w.placing true d.tmp d.binary)

  abbrev content : Option Bytes → Bytes
  content none = []
  content (some b) = b

  verify : AgentUpgradePayload → Disk → List (TaskResponse StagedResult) → Staged
  verify p d before =
      let before' = before ++ progress_response 92 "Verifying checksum..." ∷ [] in
      if p.checksum_sha256 == ""
      then stage p d before
      else if not w.reads_tmp
      then abandon d before' "checksum verification error"
      else if not (w.equal_fold (w.sha256 (content d.tmp)) p.checksum_sha256)
      then abandon d before' "checksum mismatch"
      else stage p d before'

  fetched : AgentUpgradePayload → Disk → List (TaskResponse StagedResult) → Downloaded → Staged
  fetched p d before r = elim r.error [
    | some e ↦ abandon (record d { tmp = r.file }) before "download failed"
    | none ↦
        if w.stats && exists_tmp r.file
        then verify p (record d { tmp = r.file }) before
        else abandon (record d { tmp = r.file }) before "failed to stat downloaded file"
  ]

  -- The best-effort check of the free space.
  too_big : Option ℕ → Option ℕ → Bool
  too_big none free = false
  too_big (some size) none = false
  too_big (some size) (some free) = ltb 0 size && ltb free size

  begin : AgentUpgradePayload → Disk → Staged
  begin p d =
      if too_big (get_content_length w.head) w.free_space
      then abandon d (progress_response 0 "Starting agent download..." ∷ [])
          "insufficient disk space for agent binary"
      else fetched p d (download_reports d) (downloads d)

  refused : Disk → String → Staged
  refused d e = record { disk = d; responses = failure_response e ∷ [] }

  accepted : Disk → Option AgentUpgradePayload → Staged
  accepted d none = refused d "invalid payload"
  accepted d (some p) =
      if p.download_url == "" || p.version == ""
      then refused d "download_url and version are required"
      else if p.version == w.agent_version
      then refused d "agent is already at this version"
      else if not w.knows_dir
      then refused d "failed to determine agent installation directory"
      else begin p d

  unfoldable pub handle_agent_upgrade : Disk → Staged
  unfolding accepted refused begin too_big fetched verify stage placed abandon
  handle_agent_upgrade d = accepted d w.payload
