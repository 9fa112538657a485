-- ===== src/Mix/Flush.antt =====
-- `moor_mix_flush_circuit` of src/mix.c: the whole circuit leaves the pool.
use moor_pq.Base.{ℕ, ◌≡◌, ◌∙◌, sym, ap, true, All, All_always, ==_iff}
use moor_pq.Mix.{Fds, Stays, Net, MixEntry, MixPool, of_circuit, is_flushed, mix_flush_circuit}
use moor_pq.Mix.Scans.{and_true}
use moor_pq.Mix.Put.{HasFd}
use moor_pq.Mix.Handed.{WasHanded, send_loop-WasHanded}
use moor_pq.Mix.Drain.{is_flushed-active, of_both}

flushed-HasFd :
    (fds : Fds) (conn circuit_id : ℕ) (e : MixEntry)
    → is_flushed fds conn circuit_id e ≡ true
    → HasFd fds e
flushed-HasFd fds conn circuit_id e h =
    let (mine, same_fd) = and_true (of_circuit conn circuit_id e) _ h in
    (==_iff e.target_fd (fds conn)).0 same_fd ∙ sym (ap fds (of_both conn circuit_id e mine).0)

pub flush-WasHanded :
    (fds : Fds) (stays : Stays) (net : Net) (conn circuit_id : ℕ) (pool : MixPool)
    → let (_, left, net') = mix_flush_circuit fds stays pool conn circuit_id net in
      All (WasHanded net') left
unfolding mix_flush_circuit
flush-WasHanded fds stays net conn circuit_id pool =
    let test = is_flushed fds conn circuit_id in
    send_loop-WasHanded test (is_flushed-active fds conn circuit_id) fds stays 1025 pool net (
      All_always (λ e. test e ≡ true → HasFd fds e) (flushed-HasFd fds conn circuit_id)
        pool.entries)
