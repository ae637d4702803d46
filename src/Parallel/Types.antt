-- ===== src/Parallel/Types.antt =====
-- The data of src/w1cip/parallel_runtime.py: jobs, policy, states, merge proposals and reviews. A
-- path is the list of its characters.
use w1_nexus.Prelude.{ℕ, String, ℤ, Bool, true, false, Option, List}

abbrev pub ResourcePath : Type 0
ResourcePath = List ℕ

pub record AgentJob : Type 0 where
  pub job_id : String
  pub agent_id : String
  pub branch : String
  pub dependencies : List String
  pub resource_paths : List ResourcePath

pub record ParallelRunPolicy : Type 0 where
  pub max_workers : ℕ
  pub fail_fast : Bool

-- The state of a job, in the scheduler and in the table.
pub data JobStatus : Type 0 where
  pending queued running completed failed cancelled timed_out blocked : JobStatus

-- TERMINAL_JOB_STATES
abbrev pub is_terminal : JobStatus → Bool
is_terminal completed = true
is_terminal failed = true
is_terminal cancelled = true
is_terminal timed_out = true
is_terminal blocked = true
is_terminal _ = false

abbrev pub is_completed : JobStatus → Bool
is_completed completed = true
is_completed _ = false

abbrev pub is_pending : JobStatus → Bool
is_pending pending = true
is_pending _ = false

abbrev pub is_queued : JobStatus → Bool
is_queued queued = true
is_queued _ = false

-- `s in {"failed","cancelled","timed_out","blocked"}`
abbrev pub has_failed : JobStatus → Bool
has_failed failed = true
has_failed cancelled = true
has_failed timed_out = true
has_failed blocked = true
has_failed _ = false

-- `v in {"failed", "timed_out", "blocked"}`
abbrev pub is_hard_failure : JobStatus → Bool
is_hard_failure failed = true
is_hard_failure timed_out = true
is_hard_failure blocked = true
is_hard_failure _ = false

-- A row of agent_jobs with its result, as far as the merge coordinator reads them.
pub record JobRow : Type 0 where
  pub run_id : String
  pub job_id : String
  pub agent_id : String
  pub status : JobStatus
  pub result_branch : String
  pub commit_sha : Option String
  pub changed_files : List String

pub data ProposalStatus : Type 0 where
  proposed conflicted tests_passed tests_failed : ProposalStatus

pub record MergeProposal : Type 0 where
  pub proposal_id : String
  pub run_id : String
  pub target_branch : String
  pub base_commit : String
  pub source_branches : List String
  pub source_commits : List String
  pub potential_conflicts : List String
  pub status : ProposalStatus
  pub integration_commit : Option String
  pub test_argv : List String
  pub test_exit_code : Option ℤ

pub record MergeReview : Type 0 where
  pub proposal_id : String
  pub reviewer_id : String
  pub outcome : String
  pub source_snapshot : String
