-- ===== src/Billing/Payouts/Queue.antt =====
-- The payouts' queue in Redis: `enqueueRetry`, `dequeueRetry`, `acknowledgeRetry`, `requeueRetry`,
-- `recoverInFlightJobs` and the worker `processRetryQueue`.
pub mod Kept
use service_hub_backend.Base.{
  zero, suc, ℕ, ◌+◌, ◌*◌, ◌≤◌, ◌≡◌, refl, Bool, true, false, ◌&&◌, List, [], ◌∷◌, ◌++◌, Option,
  none, some, arith, ◌==◌, leb, if◌then◌else◌, any, length, Bool-cases, Option-cases, inl, inr,
}
use service_hub_backend.Base.Table.{count, delete_many}

-- A stored job; `content` stands for the members that the queue does not look at. Every text in
-- the lists was written by `JSON.stringify`, so that `JSON.parse` reads it.
pub record QueuedJob : Type 0 where
  pub job_id : ℕ
  pub is_notification : Bool
  pub content : ℕ
  pub attempt : ℕ
  pub enqueued_at : ℕ

-- The two lists, from left to right, and the keys of each job with the millisecond of their end.
pub record RetryQueue : Type 0 where
  pub queue : List QueuedJob
  pub processing : List QueuedJob
  pub dedupe : List (ℕ × ℕ)
  pub done : List (ℕ × ℕ)

abbrev pub same_bool : Bool → Bool → Bool
same_bool true b = b
same_bool false true = false
same_bool false false = true

-- Two jobs with the same text.
abbrev pub same_text : QueuedJob → QueuedJob → Bool
same_text a b =
    (a.job_id == b.job_id)
    && (same_bool a.is_notification b.is_notification
        && ((a.content == b.content)
            && ((a.attempt == b.attempt) && a.enqueued_at == b.enqueued_at)))

abbrev has_key : ℕ → ℕ → List (ℕ × ℕ) → Bool
has_key now job_id = any (λ k. (k.0 == job_id) && leb now k.1)

-- 90 and 365 days.
abbrev pub dedupe_ttl : ℕ
dedupe_ttl = 90 * 24 * 60 * 60 * 1000

abbrev pub done_ttl : ℕ
done_ttl = 365 * 24 * 60 * 60 * 1000

-- The script of `enqueueRetry`.
unfoldable pub enqueue_retry : ℕ → QueuedJob → RetryQueue → RetryQueue
enqueue_retry now job s =
    if has_key now job.job_id s.done
    then s
    else if has_key now job.job_id s.dedupe
    then s
    else record s {
      dedupe = (job.job_id, now + dedupe_ttl) ∷ s.dedupe;
      queue = record job { enqueued_at = now } ∷ s.queue;
    }

-- The right end of a list, and what is left of it.
pop_last : QueuedJob → List QueuedJob → List QueuedJob × QueuedJob
pop_last x [] = ([], x)
pop_last x (y ∷ ys) = let (rest, last) = pop_last y ys in (x ∷ rest, last)

-- `RPOPLPUSH`
rpoplpush : List QueuedJob → List QueuedJob → Option (QueuedJob × List QueuedJob × List QueuedJob)
unfolding pop_last
rpoplpush [] to = none
rpoplpush (x ∷ xs) to = let (rest, last) = pop_last x xs in some (last, rest, last ∷ to)

pub dequeue_retry : RetryQueue → Option (QueuedJob × RetryQueue)
unfolding rpoplpush
dequeue_retry s = elim (rpoplpush s.queue s.processing) [
  | none ↦ none
  | some (job, queue, processing) ↦ some (job, record s { queue = queue; processing = processing })
]

-- `LREM key 1 raw`
lrem : QueuedJob → List QueuedJob → List QueuedJob
lrem raw [] = []
lrem raw (x ∷ xs) = if same_text x raw then xs else x ∷ lrem raw xs

pub acknowledge_retry : ℕ → QueuedJob → RetryQueue → RetryQueue
unfolding lrem
acknowledge_retry now raw s = record s {
  processing = lrem raw s.processing;
  dedupe = delete_many (λ k. k.0 == raw.job_id) s.dedupe;
  done = if raw.is_notification then (raw.job_id, now + done_ttl) ∷ s.done else s.done;
}

-- `job` is what the run has made of the job that was stored as `raw`.
pub requeue_retry : QueuedJob → QueuedJob → RetryQueue → RetryQueue
unfolding lrem
requeue_retry raw job s = record s {
  processing = lrem raw s.processing;
  queue = record job { attempt = job.attempt + 1 } ∷ s.queue;
}

-- The `while` loop of `recoverInFlightJobs`, on fuel: one turn for each job in flight.
recover_loop : ℕ → RetryQueue → RetryQueue
unfolding rpoplpush
recover_loop zero s = s
recover_loop (suc n) s = elim (rpoplpush s.processing s.queue) [
  | none ↦ s
  | some (job, processing, queue) ↦
      recover_loop n (record s { processing = processing; queue = queue })
]

pub recover_in_flight_jobs : RetryQueue → RetryQueue
unfolding recover_loop
recover_in_flight_jobs s = recover_loop (length s.processing) s

-- What `processRetryJob` comes to: the new content of the job, the notification that it enqueues,
-- and whether it returned.
pub record Run : Type 0 where
  pub content : ℕ
  pub follow_up : Option QueuedJob
  pub is_ok : Bool

follow : ℕ → Option QueuedJob → RetryQueue → RetryQueue
follow now none s = s
follow now (some job) s = enqueue_retry now job s

-- The loop over at most `n` jobs, which the first failure ends: the queue, and the jobs done.
work : ℕ → (QueuedJob → Run) → ℕ → RetryQueue → RetryQueue × List QueuedJob
unfolding dequeue_retry acknowledge_retry requeue_retry follow
work now run zero s = (s, [])
work now run (suc n) s = elim (dequeue_retry s) [
  | none ↦ (s, [])
  | some (job, s1) ↦
      let r = run job in
      let s2 = follow now r.follow_up s1 in
      let (s3, finished) = work now run n (acknowledge_retry now job s2) in
      if r.is_ok
      then (s3, job ∷ finished)
      else (requeue_retry job (record job { content = r.content }) s2, [])
]

abbrev pub batch_size : ℕ
batch_size = 10

-- `processRetryQueue`, once it has the lock and has reconciled the batches. Redis carries out every
-- command of the turn: what a command that fails leaves behind is not modelled.
pub process_retry_queue : ℕ → (QueuedJob → Run) → RetryQueue → RetryQueue × List QueuedJob
unfolding recover_in_flight_jobs work
process_retry_queue now run s = work now run batch_size (recover_in_flight_jobs s)

-- How often a job stands in a list.
abbrev pub times : ℕ → List QueuedJob → ℕ
times i jobs = count (λ job. job.job_id == i) jobs
