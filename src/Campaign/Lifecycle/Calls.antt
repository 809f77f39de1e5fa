-- ===== src/Campaign/Lifecycle/Calls.antt =====
-- The calls that a client can make on a campaign.
use sana_v.Base.{String}
use sana_v.Shared.Time.{DateTime}
use sana_v.Shared.Method.{Method, Done}
use sana_v.Campaign.Status.{GateStatus, StopIntent}
use sana_v.Campaign.Lifecycle
use sana_v.Campaign.Lifecycle.{CampaignLifecycle}

pub data Call : Type 0 where
  start resume settle_stop : DateTime → Call
  request_stop escalate_stop : StopIntent → String → Call
  await_review : DateTime → DateTime → Call
  complete : GateStatus → DateTime → Call
  abort : String → DateTime → Call
  mark_persisted : Call

unfoldable pub call : Call → Method CampaignLifecycle Done
unfolding Lifecycle.start Lifecycle.resume Lifecycle.settle_stop Lifecycle.request_stop
    Lifecycle.escalate_stop Lifecycle.await_review Lifecycle.complete Lifecycle.abort
    Lifecycle.mark_persisted
call (start at) = Lifecycle.start at
call (resume at) = Lifecycle.resume at
call (settle_stop at) = Lifecycle.settle_stop at
call (request_stop intent reason) = Lifecycle.request_stop intent reason
call (escalate_stop intent reason) = Lifecycle.escalate_stop intent reason
call (await_review at deadline) = Lifecycle.await_review at deadline
call (complete decision at) = Lifecycle.complete decision at
call (abort reason at) = Lifecycle.abort reason at
call mark_persisted = Lifecycle.mark_persisted
