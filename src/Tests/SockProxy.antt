-- ===== src/Tests/SockProxy.antt =====
-- Examples for the theorems about libspider/SockProxy.cpp.
use crowdspider.Base.{◌≡◌, refl, ◌≢◌, ◌↔◌, true, none, some, [], ◌∷◌, arith, length, Bytes, codes}
use crowdspider.Base.Int.{pos}
use crowdspider.HttpCli.Conn.{recv}
use crowdspider.SockProxy.{SocksRequest, pack_get}
use crowdspider.SockProxy.Connect.{Asked}
use crowdspider.SockProxy.Password.{pass_packet, IsShort, pass_size, pack_get-send5_pass_req_iff}
use crowdspider.SockProxy.Refused.{reply4}
use crowdspider.SockProxy.Reply.{
  owned, SocksReply, new_proxy, recv_destroy, recv_exact, then_recv, reply5, recv_port5, recv_addr5,
  recv_rep5, recv_type, recv_packet,
}
use crowdspider.SockProxy.Safe.{recv_packet-Destroyable}
use crowdspider.SockProxy.Send.{took, send_packet, send4_req, send5_pass_req, send_packet-wire}
use crowdspider.SockProxy.Wire.{wire, IsRequest}
use crowdspider.Utils.ReadLine.{Reader}

abbrev request4 : SocksRequest
request4 = send4_req 1 80 16909060 (codes "me")

request4_bytes : wire request4 ≡ 4 ∷ 1 ∷ 0 ∷ 80 ∷ 4 ∷ 3 ∷ 2 ∷ 1 ∷ b'm' ∷ b'e' ∷ 0 ∷ []
unfolding wire
request4_bytes = refl

send_packet-wire_example :
    send_packet true (took 20 ∷ []) request4 ≡ some (pos (length (wire request4)), wire request4)
unfolding IsRequest wire
send_packet-wire_example = send_packet-wire request4 20 [] tt (omega arith)

me-IsShort : IsShort (codes "me")
me-IsShort = record { chars = refl; length_fits = omega arith }

key-IsShort : IsShort (codes "key")
key-IsShort = record { chars = refl; length_fits = omega arith }

pack_get-send5_pass_req_iff_example :
    (pack_get (pass_size (codes "me") (codes "key")) (send5_pass_req (codes "me") (codes "key"))
      ≡ some (pos 8, pass_packet (codes "me") (codes "key")))
    ↔ (length (codes "me") ≡ length (codes "key"))
pack_get-send5_pass_req_iff_example =
    pack_get-send5_pass_req_iff (codes "me") (codes "key") me-IsShort key-IsShort

abbrev reply5_conn : Reader
reply5_conn = record { buffered = 5 ∷ 0 ∷ 0 ∷ 1 ∷ 1 ∷ 2 ∷ 3 ∷ 4 ∷ 0 ∷ 80 ∷ []; feed = [] }

abbrev reply5_read : SocksReply
reply5_read = reply5 (5 ∷ 0 ∷ 0 ∷ 1 ∷ []) (owned (1 ∷ 2 ∷ 3 ∷ 4 ∷ [])) 20480

recv_packet-Destroyable_example : recv_destroy reply5_read ≢ none
unfolding recv_packet recv_type recv_destroy recv_rep5 recv_addr5 recv_port5 then_recv recv_exact
    recv
recv_packet-Destroyable_example =
    recv_packet-Destroyable 35 new_proxy reply5_read reply5_conn
      (record { buffered = []; feed = [] }) refl

abbrev silent : Reader
silent = record { buffered = []; feed = [] }

abbrev wanted : Asked
wanted = record {
  auth = true;
  user = codes "me";
  pass = codes "pw";
  port = 1080;
  addr = 16909060;
  host = codes "h";
}

-- A proxy that refuses with the status 91
abbrev refusal : Bytes
refusal = reply4 0 91 0 80 1 2 3 4
