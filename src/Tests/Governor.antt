-- ===== src/Tests/Governor.antt =====
-- The governors at concrete times.
use swarm_kill_chain_medium.Prelude.{
  ℕ, zero, suc, ◌≡◌, refl, true, false, none, some, List, [], ◌∷◌, arith, length,
}
use swarm_kill_chain_medium.Float.{ticks, nan, fle}
use swarm_kill_chain_medium.Governor.Discord.{
  new_governor, Governor, delivered, abandoned, note_rate_limited, backoff, can_send,
  note_send_attempt, settle,
}
use swarm_kill_chain_medium.Governor.Discord.Pacing.{
  Run, start, send, Spaced, attempts-Spaced, cooldown_ends, nan_refusal_blocks,
}
use swarm_kill_chain_medium.Governor.Discord.Episode.{Event, blocked, limited}
use swarm_kill_chain_medium.Governor.Provider
use swarm_kill_chain_medium.Governor.Provider.Backoff.{refusals, exponential_overflow}

abbrev fresh : Governor
fresh = new_governor 1000

first_send : can_send fresh 5000 ≡ true
unfolding can_send
first_send = refl

abbrev sent_once : Governor
sent_once = settle (note_send_attempt fresh 5000) delivered

second_send : can_send sent_once 6500 ≡ true
unfolding can_send settle note_send_attempt
second_send = refl

abbrev two_sends :
    Run fresh (6500 ∷ 5000 ∷ []) (settle (note_send_attempt sent_once 6500) abandoned)
two_sends =
    send (send start 5000 first_send 5000 (omega arith) delivered) 6500 second_send 6500
      (omega arith) abandoned

attempts-Spaced_example : Spaced 1000 (6500 ∷ 5000 ∷ [])
attempts-Spaced_example = attempts-Spaced two_sends

resumed : can_send (note_rate_limited fresh 5000 (some (ticks 2000))).0 9000 ≡ true
unfolding can_send note_rate_limited backoff
resumed = refl

late : fle (ticks 0) (ticks 400000) ≡ true
unfolding fle
late = refl

cooldown_ends_example : can_send (note_rate_limited fresh 5000 (some (ticks 2000))).0 400000 ≡ true
cooldown_ends_example =
    cooldown_ends fresh 5000 400000 (some (ticks 2000)) (omega arith) (λ e. absurd (ground arith))
      (omega arith) late

abbrev no_times : List ℕ
no_times = []

nan_refusal_blocks_example :
    (no_times ≡ []) × (can_send (note_rate_limited fresh 5000 (some nan)).0 900000 ≡ false)
nan_refusal_blocks_example = nan_refusal_blocks fresh 5000 900000 start

abbrev burst : List Event
burst = blocked 7 ∷ limited 9000 none ∷ blocked 3 ∷ []

abbrev service : Provider.Governor
service = Provider.new_governor

abbrev times : ℕ → List ℕ
times zero = []
times (suc n) = n ∷ times n

length-times : (n : ℕ) → length (times n) ≡ n
length-times zero = refl
length-times (suc n) = omega (arith, length-times n)

exponential_overflow_example :
    ((Provider.note_rate_limited (refusals (Provider.note_success service) (times 1024)) 5 none).1
      ≡ false)
    × ((Provider.note_rate_limited
          (refusals (Provider.note_success service) (times 1024))
          5
          none).0.cooldown_until
        ≡ (refusals (Provider.note_success service) (times 1024)).cooldown_until)
exponential_overflow_example =
    exponential_overflow service (times 1024) 5 (omega (arith, length-times 1024))
