-- ===== src/Node/Service/Inherents.antt =====
-- The inherent data of the author and of the import queue, in node/src/service.rs.
use create_chain_substrate_n.Common.{◌≡◌, ok}
use create_chain_substrate_n.Node.Types.{Types}
use create_chain_substrate_n.Node.Library.{Library}
use create_chain_substrate_n.Node.Service.Partial.{import_inherents}
use create_chain_substrate_n.Node.Service.Full.{author_inherents}

-- At a parent block where the slot duration is the one that the author read when it started, a
-- node that imports a block makes the same inherent data as the author at the same time: the same
-- slot and the same timestamp.
inherents_agree :
    {T : Types} (S : Library T) (client : T.Client) (parent : T.Hash) (timestamp : T.Timestamp)
    (duration : T.SlotDuration)
    → S.slot_duration_at client parent ≡ ok duration
    → import_inherents S client timestamp parent ≡ author_inherents S duration timestamp
unfolding import_inherents author_inherents
inherents_agree S client parent timestamp duration e = rw (e, import_inherents)
