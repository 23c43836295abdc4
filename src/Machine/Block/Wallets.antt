-- ===== src/Machine/Block/Wallets.antt =====
-- The wallets' tables over a whole block.
use paima_engine.Base.{String, ◌≢◌, inl, inr, All}
use paima_engine.Chain.{SubmittedData, ChainData}
use paima_engine.Wallet.Process.Safe.{IsSound}
use paima_engine.Machine.State.{Machine, Env, state_of, Outcome-cases}
use paima_engine.Machine.Kept.{Keeps}
use paima_engine.Machine.Primitives.{Primitives}
use paima_engine.Machine.Inputs.{process_user_inputs}
use paima_engine.Machine.Inputs.Wallets.{process_user_inputs-IsSound}
use paima_engine.Machine.Scheduled.{process_scheduled_data}
use paima_engine.Machine.Randomness.{Chance}
use paima_engine.Machine.Block.{prepare, header_of, first_progress, process}
use paima_engine.Machine.Block.Kept.{saved, prepare-Keeps, process_scheduled_data-Keeps}

Keeps-IsSound :
    {G F R : Type 0} (m m' : Machine G F R) → Keeps m m' → IsSound m.wallet → IsSound m'.wallet
Keeps-IsSound m m' k sound =
    (rw k.db sound.0, record { at = λ a r e. rw k.db (sound.1.at a r (rw k.cache at e)) })

module _ {G Q F R D : Type 0} (env : Env G Q F R) (prims : Primitives G Q D) (chance : Chance R)
    (lower-nonempty : (a : String) → a ≢ "" → env.lower a ≢ "") where
  -- Processing a block, whether it ends or throws, leaves the wallets' tables valid and the cache in
  -- agreement with them, where both were so before, every input has a sender, and lower-casing makes no
  -- address empty.
  pub process_block-IsSound :
      (c : ChainData D) (m : Machine G F R)
      → All (λ (d : SubmittedData). d.real_address ≢ "") c.submitted_data
      → IsSound m.wallet
      → IsSound (state_of (process env prims chance c m)).1.wallet
  unfolding process
  process_block-IsSound c m senders sound =
      let kept = prepare-Keeps env prims chance c m in
      elim (Outcome-cases (prepare env prims chance c m)) [
        | inr (m1, e) ↦
            rw (e, state_of) (Keeps-IsSound (saved env prims chance c m) m1 (rw e at kept) sound)
        | inl (m1, e) ↦
            let header = header_of env prims chance c m1 in
            let first = Keeps-IsSound (saved env prims chance c m) m1 (rw e at kept) sound in
            let due = process_scheduled_data-Keeps env prims chance header m1 in
            elim (Outcome-cases (process_scheduled_data env header m1)) [
              | inr (r, f) ↦ rw (e, f, state_of) (Keeps-IsSound m1 r.machine (rw f at due) first)
              | inl (r, f) ↦
                  let second = Keeps-IsSound m1 r.machine (rw f at due) first in
                  let third =
                    process_user_inputs-IsSound env lower-nonempty header r.emitted_logs_count
                      c.submitted_data (first_progress env prims chance r) senders second in
                  elim (Outcome-cases (
                    process_user_inputs env header r.emitted_logs_count c.submitted_data
                      (first_progress env prims chance r))) [
                        | inl (p, g) ↦ rw (e, f, g, state_of) (rw g at third)
                        | inr (p, g) ↦ rw (e, f, g, state_of) (rw g at third)
                      ]
            ]
      ]
