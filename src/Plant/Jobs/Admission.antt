-- ===== src/Plant/Jobs/Admission.antt =====
-- `DueJobAdmission` of crates/plant/src/jobs.rs: which due jobs a tick of the scheduler admits.
pub mod Selection
pub mod Positions
pub mod Fairness
use vaultr.Prelude.{
  ℕ, suc, ltb, ◌==◌, Bool, true, false, not, ◌&&◌, ◌||◌, Option, none, some, List, [], ◌∷◌, ◌++◌,
  any, filter, if◌then◌else◌,
}
use vaultr.Text.{Text, chars, text_eq}
use vaultr.Recon.Delta.{is_one_of}

pub data WorkerClass : Type 0 where
  ordinary supervisory durability : WorkerClass

unfoldable pub worker_class : Text → WorkerClass
worker_class name =
    if text_eq name (chars "health")
    then supervisory
    else if text_eq name (chars "seal-push")
    then durability
    else ordinary

abbrev of_ordinary : WorkerClass → Bool
of_ordinary ordinary = true
of_ordinary _ = false

unfoldable pub is_ordinary : Text → Bool
is_ordinary name = of_ordinary (worker_class name)

-- A name is queued unless it is queued already.
unfoldable pub requeue : List Text → Text → List Text
requeue pending name = if is_one_of pending name then pending else pending ++ (name ∷ [])

abbrev pub requeue_all : List Text → List Text → List Text
requeue_all pending [] = pending
requeue_all pending (name ∷ names) = requeue_all (requeue pending name) names

unfoldable pub refresh : List Text → List Text → List Text
refresh pending due = requeue_all (filter (is_one_of due) pending) due

abbrev pub select : Text → List Text × List Text → List Text × List Text
select name (selected, deferred) = (name ∷ selected, deferred)

abbrev pub defer : Text → List Text × List Text → List Text × List Text
defer name (selected, deferred) = (selected, name ∷ deferred)

-- What is selected and what stays queued, with the ordinary names that are selected so far.
unfoldable pub take_from : ℕ → ℕ → List Text → List Text × List Text
take_from turns taken [] = ([], [])
take_from turns taken (name ∷ pending) =
    let one_more = take_from turns (suc taken) pending in
    let as_many = take_from turns taken pending in
    if not (is_ordinary name)
    then select name as_many
    else if ltb taken turns
    then select name one_more
    else defer name as_many

unfoldable pub take_with_reserved : List Text → ℕ → List Text × List Text
take_with_reserved pending ordinary_turns = take_from ordinary_turns 0 pending

-- A tick of the scheduler: the names that are due, and of those it selects the ones it queues again, since
-- their lock is held, or no capacity is left, or their worker does not start.
pub record Tick : Type 0 where
  pub due : List Text
  pub is_refused : Text → Bool

unfoldable pub tick : ℕ → List Text → Tick → List Text × List Text
tick cap pending t =
    let (selected, deferred) = take_with_reserved (refresh pending t.due) cap in
    (
      filter (λ name. not (t.is_refused name)) selected,
      requeue_all deferred (filter t.is_refused selected),
    )
