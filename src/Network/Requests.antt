-- ===== src/Network/Requests.antt =====
-- useful_blockchain/network/node.py: the readers of the heights and limits that a peer sends.
use easyblockchain.Prelude.{if◌then◌else◌}
use easyblockchain.Prelude.Int.{ℤ, pos, ltb_ℤ, min_ℤ, max_ℤ}
use easyblockchain.Python.{Result, ok, catch_conversion}
use easyblockchain.Python.Value.{Value, is_none}
use easyblockchain.Platform.{Platform}
use easyblockchain.Dynamic.{int_of}

-- the limit, not below 1 and not above `max_batch`
abbrev pub clamp_batch : ℤ → ℤ → ℤ
clamp_batch requested max_batch = max_ℤ (pos 1) (min_ℤ requested max_batch)

-- `least` where the number is below it
abbrev pub at_least : ℤ → ℤ → ℤ
at_least least requested = if ltb_ℤ requested least then least else requested

module _ ⦃env : Platform⦄ where
  unfoldable pub resolve_get_chain_batch_size : Value → ℤ → Result ℤ
  resolve_get_chain_batch_size limit_raw max_batch =
      if is_none limit_raw
      then ok (clamp_batch max_batch max_batch)
      else catch_conversion (int_of limit_raw) (λ requested. ok (clamp_batch requested max_batch))
          (ok (clamp_batch max_batch max_batch))

  unfoldable pub resolve_get_chain_from_height : Value → Result ℤ
  resolve_get_chain_from_height from_height_raw =
      if is_none from_height_raw
      then ok (pos 1)
      else catch_conversion (int_of from_height_raw) (λ requested. ok (at_least (pos 1) requested))
          (ok (pos 1))

  unfoldable pub resolve_chain_height : Value → ℤ → Result ℤ
  resolve_chain_height height_raw default =
      if is_none height_raw
      then ok default
      else catch_conversion (int_of height_raw) (λ requested. ok (at_least (pos 0) requested))
          (ok default)

  unfoldable pub resolve_get_chain_next_height : Value → ℤ → Result ℤ
  resolve_get_chain_next_height next_height_raw default =
      if is_none next_height_raw
      then ok default
      else catch_conversion (int_of next_height_raw) (λ requested. ok (at_least (pos 1) requested))
          (ok default)
