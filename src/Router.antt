-- ===== src/Router.antt =====
-- The routers between the network and the shards: serverd/ingress/RxRouter.cpp,
-- serverd/egress/TxRouter.cpp and serverd/packet/PacketBuilder.cpp.
pub mod Rx
pub mod Tx
