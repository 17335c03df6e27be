-- ===== src/Google/Exchange.antt =====
-- What an exchange with a server of Google went through, in src/handlers/PlacesApiHandler.cpp.
use cherry_recorder_server.Prelude.{◌≡◌, ◌∙◌}
use cherry_recorder_server.Json.{ok}
use cherry_recorder_server.Json.Objects.{>>=-ends, >>-ends}
use cherry_recorder_server.Google.{
  GoogleRequest, Reply, Host, connect, reached, exchange, closed_down,
}

-- The reply is the one that was read.
pub exchange-read :
    (host : Host) (req : GoogleRequest) {reply : Reply}
    → exchange host req ≡ ok reply
    → host.read req ≡ ok reply
unfolding exchange
exchange-read host req e =
    let handshaken = >>-ends (reached (connect host).1) _ (>>-ends host.resolve _ e) in
    let written = >>-ends (host.write req) _ (>>-ends host.handshake _ handshaken) in
    let (reply, shut, was_read) = >>=-ends _ (host.read req) written in
    was_read ∙ >>-ends (closed_down host.shutdown) (ok reply) shut
