-- ===== src/Protocol/Tests.antt =====
-- Amounts of packages/protocol/src/amount.ts at a number.
use v.Base.{◌≡◌}
use v.Base.Int.{pos}
use v.Protocol.Types.{valid}
use v.Protocol.Amount.{human_to_sats, sats_to_human}
use v.Protocol.RoundTrip.{human_to_sats-sats_to_human}

human_to_sats-sats_to_human_example :
    human_to_sats (sats_to_human (pos 123450000)) ≡ valid 123450000
human_to_sats-sats_to_human_example = human_to_sats-sats_to_human 123450000
