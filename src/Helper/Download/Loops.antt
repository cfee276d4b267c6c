-- ===== src/Helper/Download/Loops.antt =====
-- In a bounded world the loops that read control lines end.
use mu5250_open_ui.Base.{
  ℕ, zero, suc, ◌+◌, ◌-◌, ◌≤◌, ◌<◌, ◌≡◌, refl, min, Bool, true, false, Option, none, some, ◌==◌,
  arith, if◌then◌else◌,
}
use mu5250_open_ui.Helper.Download.Bounded.{Reads, Passes, IsBounded}
use mu5250_open_ui.Helper.Download.Interface.{
  DownloadCtl, accept, decline, cancel, preview_timeout, Received, message, nothing, disconnected,
  Card, Server, Control,
}
use mu5250_open_ui.Helper.Download.Steps.{drain, cancelled, await, decision, preview_max}

nonzero : (n : ℕ) → (n == 0) ≡ false → 0 < n
nonzero n e = ground arith

module _ {W : Type 0} (left : W → ℕ) where
  -- The loop ended, with less than `n` left.
  abbrev pub Came : {B : Type 0} → ℕ → Option (B × W) → Type 0
  Came n none = ⊥
  Came n (some (b, w)) = left w < n

  drained :
      (n k m : ℕ) (r : Received) (w : W) (more : Option (Bool × W))
      → Reads left m (r, w)
      → m < n
      → m < suc k
      → (left w < k → left w < n → Came n more)
      → Came n (elim r [
        | message d ↦ elim d [ cancel ↦ some (true, w) | _ ↦ more ]
        | nothing ↦ some (false, w)
        | disconnected ↦ some (false, w)
      ])
  drained n k m (message accept) w more h l l' q = q (omega arith) (omega arith)
  drained n k m (message decline) w more h l l' q = q (omega arith) (omega arith)
  drained n k m (message cancel) w more h l l' q = omega arith
  drained n k m (message preview_timeout) w more h l l' q = q (omega arith) (omega arith)
  drained n k m nothing w more h l l' q = omega arith
  drained n k m disconnected w more h l l' q = omega arith

  signal_flow :
      (n : ℕ) (signal : Bool) (w : W) (more : Option (Bool × W))
      → left w < n
      → Came n more
      → Came n (if signal then some (true, w) else more)
  signal_flow n true w more h k = h
  signal_flow n false w more h k = k

  awaited :
      (n m : ℕ) (signal none_left : Bool) (r : Received) (w1 w2 w3 : W)
      (more : Option (DownloadCtl × W))
      → left w1 ≤ m
      → left w2 ≤ m
      → left w3 ≤ m
      → m < n
      → (none_left ≡ false → r ≡ nothing → Came n more)
      → Came n (
          if signal
          then some (cancel, w1)
          else if none_left
          then some (preview_timeout, w2)
          else elim r [
            | message d ↦ some (d, w3)
            | nothing ↦ more
            | disconnected ↦ some (cancel, w3)
          ])
  awaited n m true none_left r w1 w2 w3 more h1 h2 h3 l q = omega arith
  awaited n m false true r w1 w2 w3 more h1 h2 h3 l q = omega arith
  awaited n m false false (message d) w1 w2 w3 more h1 h2 h3 l q = omega arith
  awaited n m false false nothing w1 w2 w3 more h1 h2 h3 l q = q refl refl
  awaited n m false false disconnected w1 w2 w3 more h1 h2 h3 l q = omega arith

  passed :
      (clock : W → ℕ) (until : ℕ) (r : Received) (w : W)
      → r ≡ nothing
      → Passes left clock until (r, w)
      → until ≤ clock w
  passed clock until nothing w e h = h
  passed clock until (message d) w e h = cc
  passed clock until disconnected w e h = cc

  module _ (card : Card W) (http : Server W) (c : Control W) (b : IsBounded left card http c) where
    drain-Came : (n k : ℕ) (w : W) → left w < k → left w < n → Came n (drain c k w)
    unfolding drain
    drain-Came n zero w h l = omega arith
    drain-Came n (suc k) w h l =
        let w' = (c.try_recv w).1 in
        drained n k (left w) (c.try_recv w).0 w' (drain c k w') (b.try_recv w) l h
          (drain-Came n k w')

    pub cancelled-Came : (n : ℕ) (w : W) → left w < n → Came n (cancelled c n w)
    unfolding cancelled
    cancelled-Came n w l =
        let w' = (c.signalled w).1 in
        let h = b.signalled w in
        signal_flow n (c.signalled w).0 w' (drain c n w') (omega arith)
          (drain-Came n n w' (omega arith) (omega arith))

    -- Each turn that goes on brings the clock nearer to `until`.
    await-Came :
        (n k until : ℕ) (w : W) → until - b.clock w < k → left w < n → Came n (await c k until w)
    unfolding await
    await-Came n zero until w h l = omega arith
    await-Came n (suc k) until w h l =
        let w1 = (c.signalled w).1 in
        let w2 = (c.now w1).1 in
        let slice = min (until - (c.now w1).0) 200 in
        let w3 = (c.recv_timeout slice w2).1 in
        let h1 = b.signalled w in
        let h2 = b.now w1 in
        let h3 = b.recv_timeout slice w2 in
        awaited n (left w) (c.signalled w).0 (slice == 0) (c.recv_timeout slice w2).0 w1 w2 w3
          (await c k until w3) h1 (omega arith) (omega arith) l
          (λ e q.
            let t1 = b.signalled_time w in
            let t2 = b.now_time w1 in
            let t3 =
              passed b.clock (b.clock w2 + slice) (c.recv_timeout slice w2).0 w3 q
                (b.waited slice w2) in
            let some_left = nonzero slice e in await-Came n k until w3 (omega arith) (omega arith))

    pub decision-Came :
        (n deadline : ℕ) (w : W) → preview_max < n → left w < n → Came n (decision c n deadline w)
    unfolding decision
    decision-Came n deadline w enough l =
        let h = b.now w in
        let t = b.now_time w in await-Came n n _ (c.now w).1 (omega arith) (omega arith)
