-- ===== src/Connection/Bound.antt =====
-- connection.go: the functions that `prepare` binds to pings and pongs.
use webson.Common.{ℕ}
use webson.Message.{Message, pong_message}
use webson.Message.Assemble.{Flate}
use webson.Message.Collect.{read}
use webson.Connection.{Connection, MessageAction, reply_pong, refresh_pong, on_message}
use webson.Connection.Write.{dispatch}
use webson.Connection.Ping.{pinged, refresh_pong_time}

-- A call of a bound function at the time `now`, with the message as it leaves it: a ping is answered
-- with what `Read` gives, whatever its error. `user` stands for the user's functions.
unfoldable pub run_action :
    (ℕ → Message → Connection → Message × Connection)
    → Flate
    → ℕ
    → MessageAction
    → Message
    → Connection
    → Message × Connection
unfolding refresh_pong_time
run_action user f now reply_pong m con =
    let ((r, e), m') = read f m in (m', pinged con (dispatch f pong_message r con))
run_action user f now refresh_pong m con = (m, refresh_pong_time now con)
run_action user f now (on_message action) m con = user action m con
