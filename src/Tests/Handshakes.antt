-- ===== src/Tests/Handshakes.antt =====
-- The upgrade of a connection.
use webson.Common.{◌≡◌, refl, true, some, codes, arith}
use webson.Tests.{ready_config}
use webson.Handshake.Agreement.{IsAgreement, streams-IsAgreement}
use webson.Handshake.Url.{parse_url, cut_at, index, has_control, with_port}
use webson.Handshake.Server.{starts_with}

streams-IsAgreement_example : IsAgreement ready_config (record ready_config { max_streams = 2 })
streams-IsAgreement_example =
    streams-IsAgreement ready_config (record ready_config { max_streams = 2 }) (λ on. omega arith)
      (omega arith) (omega arith)

parsed :
    parse_url (codes "wss://me:pw@host/chat?x#top")
    ≡ some (record {
      host_port = codes "host:443";
      path = codes "/chat?x";
      user_password = codes "me:pw";
      use_tls = true;
    })
unfolding parse_url cut_at index starts_with has_control with_port
parsed = refl
