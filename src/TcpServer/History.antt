-- ===== src/TcpServer/History.antt =====
-- The connections of reactor_net/src/TcpServer.cpp in every history of the server.
use cc_learning.Base.{Option, none, some}
use cc_learning.TcpServer.{TcpServer}
use cc_learning.TcpServer.World.{World}
use cc_learning.TcpServer.Removal.{WorldInv}

abbrev WorldInvIfAny : Option World → Type 0
WorldInvIfAny none = Unit
WorldInvIfAny (some w) = WorldInv w
