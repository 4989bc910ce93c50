-- ===== src/Proxy/Udp/Accounting.antt =====
-- What `handle_udp` counts, from its socket on, whatever the client sends.
use rust.Prelude.{ℕ, ◌≡◌, refl, Option}
use rust.Error.{Result, IoError, err, io, config, udp_bind_failed}
use rust.Bytes.{Str}
use rust.Exec.{IoResult, done, failed, ◌>>=◌}
use rust.Io.{AsyncRead}
use rust.Io.Finite.{IsFinite}
use rust.Protocol.Address.{SocketAddr}
use rust.Proxy.Net.{Net}
use rust.Proxy.Session.{Session}
use rust.Proxy.Udp.{handle_udp}
use rust.Proxy.Udp.Sending.{IsSending}
use rust.Proxy.Udp.Answering.{IsAnswering, IsIdle, IsIdle-after}
use rust.Proxy.Udp.Totals.{Counted, udp_loop-Counted}

module _ (net : Net) (sending : IsSending net) (answering : IsAnswering net) (r : AsyncRead)
    (fin : IsFinite r) (udp_timeout : ℕ) (udp_bind_addr : Str) (session : Session) (s : r.Stream)
    (w0 : net.World) where
  abbrev Idle : net.World → Type 0
  Idle = IsIdle net sending answering w0

  -- How an association ends: it gets no socket, or its socket has no address, and nothing was sent,
  -- received or written; or it ends as the loop of its socket does.
  pub data Counts : Result (Option Session) × (r.Stream × net.World) → Type 0 where
    unbound :
        (e : IoError) (w w' : net.World)
        → net.udp_bind udp_bind_addr w ≡ (failed e, w')
        → Idle w'
        → Counts (err (config (udp_bind_failed udp_bind_addr e)), (s, w'))
    nameless :
        (socket : net.Socket) (e : IoError) (w1 w w' : net.World)
        → net.udp_bind udp_bind_addr w1 ≡ (done socket, w)
        → net.local_addr socket w ≡ (failed e, w')
        → Idle w'
        → Counts (err (io e), (s, w'))
    looped :
        (socket : net.Socket) (w1 w2 w : net.World)
        {result : Result (Option Session) × (r.Stream × net.World)}
        → net.udp_bind udp_bind_addr w1 ≡ (done socket, w2)
        → Idle w
        → Counted net sending answering r fin udp_timeout socket session s w result
        → Counts result

  module _ (rounds : ℕ) where
    addressed :
        (socket : net.Socket) (w w1 : net.World)
        → Idle w1
        → net.udp_bind udp_bind_addr w ≡ (done socket, w1)
        → (result : IoResult SocketAddr × net.World) → net.local_addr socket w1 ≡ result
        → Counts (handle_udp net r rounds session udp_timeout udp_bind_addr (s, w))
    unfolding handle_udp ◌>>=◌
    addressed socket w w1 idle bound (result, w') q =
        let (arrived, written) = answering.addr_same socket w1 in
        go result q
          (IsIdle-after net sending answering q (sending.addr_log socket w1, arrived, written) idle)
      where
        go :
            (result : IoResult SocketAddr)
            → net.local_addr socket w1 ≡ (result, w')
            → Idle w'
            → Counts (handle_udp net r rounds session udp_timeout udp_bind_addr (s, w))
        go (failed e) q idle = rw (bound, q) (nameless socket e w w1 w' bound q idle)
        go (done addr) q idle =
            rw (bound, q)
              (looped socket w w1 w' bound idle (
                udp_loop-Counted net sending answering r fin udp_timeout socket rounds session s
                  w'))

    bound_to :
        (w : net.World)
        → Idle w
        → (result : IoResult net.Socket × net.World) → net.udp_bind udp_bind_addr w ≡ result
        → Counts (handle_udp net r rounds session udp_timeout udp_bind_addr (s, w))
    unfolding handle_udp ◌>>=◌
    bound_to w idle (result, w') q =
        let (arrived, written) = answering.bind_same udp_bind_addr w in
        go result q (
          IsIdle-after net sending answering q (sending.bind_log udp_bind_addr w, arrived, written)
            idle)
      where
        go :
            (result : IoResult net.Socket)
            → net.udp_bind udp_bind_addr w ≡ (result, w')
            → Idle w'
            → Counts (handle_udp net r rounds session udp_timeout udp_bind_addr (s, w))
        go (failed e) q idle = rw q (unbound e w w' q idle)
        go (done socket) q idle = addressed socket w w' idle q _ refl

    -- Whatever bytes the client sends: the association never panics. It gets no socket, or its socket
    -- has no address, and nothing was sent, received or written; or its loop has sent, received,
    -- written and counted as it is to.
    pub handle_udp-Counts :
        (w : net.World)
        → Idle w
        → Counts (handle_udp net r rounds session udp_timeout udp_bind_addr (s, w))
    handle_udp-Counts w idle = bound_to w idle _ refl
