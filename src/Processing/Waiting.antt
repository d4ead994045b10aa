-- ===== src/Processing/Waiting.antt =====
-- The renewals of a lease while sales_imports/processing.py waits: `_DownloadLeaseHeartbeat`, and
-- the polling of `_source_session_lock`. Times are those of the monotonic clock, in units of which
-- the intervals are whole numbers; a call of `heartbeat_job` is the time at which it is made.
pub mod Laws
use pharma_intel.Base.{
  ℕ, ◌+◌, ◌-◌, Bool, true, false, ◌&&◌, List, [], ◌∷◌, leb, ltb, if◌then◌else◌, Result, ok, err,
  raise_if, ◌>>◌, ◌==◌,
}

-- `_DownloadLeaseHeartbeat`
pub record DownloadHeartbeat : Type 0 where
  pub interval : ℕ
  pub last_heartbeat : ℕ

pub data IntervalError : Type 0 where
  interval_not_positive : IntervalError

unfoldable pub new_heartbeat : ℕ → ℕ → Result IntervalError DownloadHeartbeat
new_heartbeat interval now = do
  raise_if (interval == 0) interval_not_positive
  ok record { interval = interval; last_heartbeat = now }

-- `__call__` at the time `checked_at`: whether the lease is renewed, and the new state.
unfoldable pub on_progress : ℕ → DownloadHeartbeat → Bool × DownloadHeartbeat
on_progress checked_at h =
    if ltb (checked_at - h.last_heartbeat) h.interval
    then (false, h)
    else (true, record h { last_heartbeat = checked_at })

-- The renewals over the progress calls of a download.
unfoldable pub download_beats : List ℕ → DownloadHeartbeat → List ℕ
unfolding on_progress
download_beats [] h = []
download_beats (t ∷ ts) h =
    let (renewed, h') = on_progress t h in
    let rest = download_beats ts h' in if renewed then t ∷ rest else rest

-- One poll: whether `pg_try_advisory_lock` took the lock, the time after it, and whether
-- `heartbeat_job` would raise then.
pub record Poll : Type 0 where
  pub taken : Bool
  pub checked_at : ℕ
  pub refused : Bool

-- How far the `while` loop gets with some polls.
pub data Wait : Type 0 where
  polling acquired timed_out not_renewed : Wait

-- The loop, with the times at which the lease is renewed; the renewal that follows the loop is at the
-- time of the poll that took the lock.
unfoldable pub poll_lock : ℕ → ℕ → ℕ → List Poll → Wait × List ℕ
poll_lock deadline interval heartbeat_at [] = (polling, [])
poll_lock deadline interval heartbeat_at (p ∷ ps) =
    let due = leb heartbeat_at p.checked_at in
    let next = if due then p.checked_at + interval else heartbeat_at in
    let rest = poll_lock deadline interval next ps in
    if p.taken
    then (if p.refused then (not_renewed, []) else (acquired, p.checked_at ∷ []))
    else if leb deadline p.checked_at
    then (timed_out, [])
    else if due && p.refused
    then (not_renewed, [])
    else (rest.0, if due then p.checked_at ∷ rest.1 else rest.1)

-- `_source_session_lock` from the time `started` until its body runs.
unfoldable pub wait_for_lock : ℕ → ℕ → ℕ → List Poll → Wait × List ℕ
unfolding poll_lock
wait_for_lock started timeout interval polls =
    poll_lock (started + timeout) interval (started + interval) polls
