-- ===== src/Config/Validity.antt =====
-- config.go: which configurations are loaded.
use mathlib.Core.Path.{subst, subst⁻¹}
use open_v_center_agent_hype.Base.{ℕ, ◌≡◌, ◌≤◌, ◌↔◌, true, false, some, any, arith, ap, ◌∙◌, blank}
use open_v_center_agent_hype.Config.{
  IniInt, unreadable, negative, number, or_positive, or_jobs, Host, Config, AgentSection, load,
  load_from_ini, load_for_messaging, validate_paths, storage_missing, new_config,
}

-- The ranges that the agent's queue and its timers rely on.
pub record InRange (c : Config) : Type 0 where
  pub some_job : 1 ≤ c.max_concurrent_jobs
  pub few_jobs : c.max_concurrent_jobs ≤ 64
  pub some_time : 1 ≤ c.task_timeout
  pub some_beat : 1 ≤ c.heartbeat_interval

or_positive-le : (v : IniInt) (old : ℕ) → 1 ≤ old → 1 ≤ or_positive v old
or_positive-le unreadable old h = h
or_positive-le (negative n) old h = h
or_positive-le (number v) old h = ground arith

or_jobs-le :
    (v : IniInt) (old : ℕ) → 1 ≤ old → old ≤ 64 → (1 ≤ or_jobs v old) × (or_jobs v old ≤ 64)
or_jobs-le unreadable old h k = (h, k)
or_jobs-le (negative n) old h k = (h, k)
or_jobs-le (number v) old h k = ground arith

module _ (os : Host) where
  load_from_ini-InRange : (s : AgentSection) → InRange (load_from_ini os s)
  unfolding load_from_ini new_config
  load_from_ini-InRange s = record {
    some_job = (or_jobs-le s.max_concurrent_jobs 4 (omega arith) (omega arith)).0;
    few_jobs = (or_jobs-le s.max_concurrent_jobs 4 (omega arith) (omega arith)).1;
    some_time = or_positive-le s.task_timeout 60 (omega arith);
    some_beat = or_positive-le s.heartbeat_interval 60 (omega arith);
  }

  pub record IsUsable (c : Config) : Type 0 where
    pub has_host : blank c.host_id ≡ false
    pub has_broker : blank c.rabbitmq_url ≡ false
    pub has_templates : (blank c.template_path ≡ false) × (os.dir_exists c.template_path ≡ true)
    pub has_isos : (blank c.local_iso_path ≡ false) × (os.dir_exists c.local_iso_path ≡ true)
    pub has_storage : any (storage_missing os) c.additional_vm_storage ≡ false

  load-some_iff :
      (s : AgentSection)
      → (load os (some s) ≡ some (load_from_ini os s)) ↔ IsUsable (load_from_ini os s)
  unfolding load validate_paths
  load-some_iff s = ground arith

  load-is : (s : AgentSection) (c : Config) → load os (some s) ≡ some c → load_from_ini os s ≡ c
  unfolding load
  load-is s c h = ground arith

  messaging :
      (s : AgentSection)
      → IsUsable (load_from_ini os s)
      → load_for_messaging os (some s) ≡ some (load_from_ini os s)
  unfolding load_for_messaging
  messaging s u = ground arith

  load-some :
      (s : AgentSection) (c : Config)
      → load os (some s) ≡ some c
      → (load_from_ini os s ≡ c) × IsUsable c
  load-some s c h = let e = load-is s c h in (e, subst IsUsable e ((load-some_iff s).0 (rw e h)))

  -- A configuration is loaded exactly when the section gives it, the required texts are there, the
  -- template path and the image path, which config.go:76 calls optional, are directories, and so is each additional storage path or its parent. It
  -- then allows 1 to 64 jobs at once, its task timeout and its heartbeat interval are at least a second,
  -- and the upgrade command loads the same configuration for its messages.
  pub load-iff-IsUsable :
      (s : AgentSection) (c : Config)
      → (load os (some s) ≡ some c) ↔ (
          (load_from_ini os s ≡ c)
          × IsUsable c
          × InRange c
          × (load_for_messaging os (some s) ≡ some c))
  load-iff-IsUsable s c = (
    λ h.
        let e = load-is s c h in
        let u = (load-some s c h).1 in
        (
          e,
          u,
          subst InRange e (load_from_ini-InRange s),
          messaging s (subst⁻¹ IsUsable e u) ∙ ap some e,
        ),
    λ u. (load-some_iff s).1 (subst⁻¹ IsUsable u.0 u.1) ∙ ap some u.0,
  )
