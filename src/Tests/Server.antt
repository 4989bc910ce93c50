-- ===== src/Tests/Server.antt =====
-- The theorems on whole connections, for a client that sends everything at once.
use rust.Prelude.{ℕ, ◌+◌, ◌%◌, ◌≡◌, ◌⊎◌, refl, List, [], ◌++◌, ap, arith, length, length-append}
use rust.Error.{ok}
use rust.Io.Memory.{memory}
use rust.Io.Finite.{memory_finite}
use rust.Protocol.Header.{Header, peek_size}
use rust.Protocol.Header.Wire.{wire, length-wire}
use rust.Proxy.Session.{u64_mod}
use rust.Server.{prefixed, handle_connection, Decision, peek_loop}
use rust.Server.Peek.{BeginsWith, IsRight, peek_loop-IsRight}
use rust.Server.Connection.{
  Proxies, FallsBack, handle_connection-Proxies, handle_connection-FallsBack,
}
use rust.Server.Delivery.{
  Delivers, Relays, Fails, handle_connection-Delivers, handle_connection-Relays,
}
use rust.Tests.Ext.{ext, ext-IsExact}
use rust.Tests.Network.{idle, net, net-IsDelivering}
use rust.Tests.Data.{
  localhost, server, user_header, request, user_header-IsHeader, user_lem, request-AreBytes,
}

abbrev user_stream : List ℕ
user_stream = wire user_header ++ request

-- No header is as short as this request.
request-stranger : (h : Header) → ¬ BeginsWith server.passwords request h
request-stranger h u =
    absurd (omega (arith, ap length u.split, length-append (wire h) u.rest, length-wire h u.header))

request_nonempty : request ≡ [] → ⊥
request_nonempty e = cc

handle_connection-Delivers_example :
    (Delivers net net-IsDelivering ext ext-IsExact memory memory_finite server localhost 1
        user_header request idle 7
        (handle_connection net ext memory server localhost 1 user_stream idle 7)
      ⊎ Fails net net-IsDelivering ext ext-IsExact memory memory_finite server localhost 1
          (prefixed net ext memory server)
          (handle_connection net ext memory server localhost 1 user_stream idle 7))
    × ((handle_connection net ext memory server localhost 1 user_stream idle 7).2
        ≡ (7 + 1) % u64_mod)
unfolding memory_finite
handle_connection-Delivers_example =
    handle_connection-Delivers net net-IsDelivering ext ext-IsExact memory memory_finite server
      localhost 1 user_stream idle 7 user_header request user_header-IsHeader user_lem refl
      request-AreBytes refl

handle_connection-Relays_example :
    Relays net net-IsDelivering ext ext-IsExact memory memory_finite server localhost 1 request idle
      (handle_connection net ext memory server localhost 1 request idle 7)
    ⊎ Fails net net-IsDelivering ext ext-IsExact memory memory_finite server localhost 1 memory
        (handle_connection net ext memory server localhost 1 request idle 7)
unfolding memory_finite
handle_connection-Relays_example =
    handle_connection-Relays net net-IsDelivering ext ext-IsExact memory memory_finite server
      localhost 1 request idle 7 request-AreBytes request_nonempty request-stranger

peek_loop-IsRight_example :
    (d : Decision) × ((peek_loop memory server.passwords (peek_size + 1) [] request).0 ≡ ok d)
    × IsRight server.passwords request
        (peek_loop memory server.passwords (peek_size + 1) [] request).1
        d
unfolding memory_finite
peek_loop-IsRight_example =
    peek_loop-IsRight memory memory_finite server.passwords request request-AreBytes

handle_connection-Proxies_example :
    Proxies net ext memory memory_finite server localhost 1 user_header request
      (handle_connection net ext memory server localhost 1 user_stream idle 7)
      idle
      7
unfolding memory_finite
handle_connection-Proxies_example =
    handle_connection-Proxies net ext memory memory_finite server localhost 1 user_stream idle 7
      user_header request user_header-IsHeader user_lem request-AreBytes refl

handle_connection-FallsBack_example :
    FallsBack net ext memory memory_finite server localhost 1 request
      (handle_connection net ext memory server localhost 1 request idle 7)
      idle
      7
unfolding memory_finite
handle_connection-FallsBack_example =
    handle_connection-FallsBack net ext memory memory_finite server localhost 1 request idle 7
      request-AreBytes request_nonempty request-stranger
