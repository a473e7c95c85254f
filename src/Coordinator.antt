-- ===== src/Coordinator.antt =====
-- src/buildcoordinator.cpp: attempts at builds, the requests that wait on them, and their permits.
-- Attempts and waits are numbered in the order they are made and stay in the store when the source
-- lets them go. What the source calls once its lock is released is collected in `calls`.
pub mod Search
pub mod Transitions
pub mod Hurry
pub mod Requests
mod Tests
use makebelieve.Base.{
  ℕ, zero, suc, ◌+◌, ◌-◌, ◌*◌, ◌%◌, ◌^◌, ◌≤◌, ◌<◌, ◌≡◌, refl, sym, ap, subst, ◌∙◌, ◌≢◌, ◌↔◌, ◌⊎◌,
  inl, inr, Bool, true, false, not, ◌&&◌, ◌||◌, Option, none, some, List, [], ◌∷◌, ◌++◌, map,
  reverse, arith, ltb, leb, nat_eq, if◌then◌else◌, nat_eq_iff, ltb→lt, lt→ltb, Bool-cases,
  Option-cases, and_left, and_right, or_right, length, get_elem?, modify, length-modify,
  modify_self, modify-none, modify_other, take, drop, find_if, any_of, all_of, keep, All, In,
  AllPairs, length-append, take-append, drop-append, All-append, All-keep, All-map, AllPairs-keep,
  AllPairs-concat, HasTest, ◌==◌, ℕ-HasTest, List-HasTest, list_eq, eq_iff, eq_self, eq_cases,
  Result, ok, err, ◌>>=◌, ◌>>◌, reject_if, ok_steps, reject_if-eq-ok, after_check, ok-injective,
  ne_test,
}
use makebelieve.Base.OrdMap
use makebelieve.Paths.{FilePath}
use makebelieve.DirectoryTree.{ErrorCode, operation_canceled, resource_deadlock_would_occur}

pub data Phase : Type 0 where
  pending queued running ended : Phase

pub data Permit : Type 0 where
  no_permit held released reacquiring : Permit

pub data WaitState : Type 0 where
  blocked ready done : WaitState

-- `std::error_code`: `none` is success.
abbrev pub Code : Type 0
Code = Option ErrorCode

abbrev pub canceled : Code
canceled = some operation_canceled

abbrev pub dependency_cycle : Code
dependency_cycle = some resource_deadlock_would_occur

-- `leased` and `draining` say whether `lease` and `drain` are set.
pub record Attempt : Type 0 where
  pub output : FilePath
  pub phase : Phase
  pub permit : Permit
  pub stopping : Bool
  pub doomed : Bool
  pub hurried : Bool
  pub result : Option Code
  pub predecessor : Option ℕ
  pub leased : Bool
  pub reacquire_outstanding : Bool
  pub draining : Bool
  pub waits_by_me : List ℕ
  pub waits_on_me : List ℕ
  pub edges_out : List (ℕ × ℕ)

pub record Wait : Type 0 where
  pub target : ℕ
  pub requester : Option ℕ
  pub state : WaitState
  pub result : Code

-- `Effects`, and the permits released and promoted under the lock.
pub record Effects : Type 0 where
  pub stop_reacquires : List ℕ
  pub stop_attempts : List ℕ
  pub reacquires : List ℕ
  pub drains : List ℕ
  pub answered : List ℕ
  pub releases : List ℕ
  pub promotions : List ℕ

-- `waiting` is `m_waits`, `running` is `m_running`, and `can_promote` says whether the provider of
-- permits has a `promote`.
pub record Coordinator : Type 0 where
  pub attempts : List Attempt
  pub waits : List Wait
  pub waiting : List ℕ
  pub running : List (FilePath × ℕ)
  pub can_promote : Bool
  pub calls : Effects

abbrev pub no_calls : Effects
no_calls = record {
  stop_reacquires = [];
  stop_attempts = [];
  reacquires = [];
  drains = [];
  answered = [];
  releases = [];
  promotions = [];
}

unfoldable pub initial : Bool → Coordinator
initial can_promote = record {
  attempts = [];
  waits = [];
  waiting = [];
  running = [];
  can_promote = can_promote;
  calls = no_calls;
}

abbrev pub at_attempt : ℕ → (Attempt → Attempt) → Coordinator → Coordinator
at_attempt a f c = record c { attempts = modify a f c.attempts }

abbrev pub at_wait : ℕ → (Wait → Wait) → Coordinator → Coordinator
at_wait i f c = record c { waits = modify i f c.waits }

abbrev pub at_calls : (Effects → Effects) → Coordinator → Coordinator
at_calls f c = record c { calls = f c.calls }

abbrev behind : Phase → Option ℕ → List ℕ
behind Phase.pending (some a) = a ∷ []
behind _ _ = []

-- What an attempt waits on: its blocked waits' targets and, not yet started, the attempt it waits
-- behind.
abbrev pub nexts : Attempt → List ℕ
nexts x = map (λ e. e.0) x.edges_out ++ behind x.phase x.predecessor

abbrev nexts_of : Option Attempt → List ℕ
nexts_of none = []
nexts_of (some x) = nexts x

abbrev pub nexts_at : Coordinator → ℕ → List ℕ
nexts_at c a = nexts_of (get_elem? c.attempts a)

abbrev pub Edge : Coordinator → ℕ → ℕ → Type 0
Edge c a b = In b (nexts_at c a)

abbrev pub is_hurried : Option Attempt → Bool
is_hurried none = false
is_hurried (some x) = x.hurried

-- A chain of attempts, each waiting on the next.
pub data Leads (c : Coordinator) : ℕ → ℕ → Type 0 where
  stay : {a : ℕ} → Leads c a a
  onward : {a m b : ℕ} → Edge c a m → Leads c m b → Leads c a b
