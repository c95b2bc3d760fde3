-- ===== src/Mux/Session.antt =====
-- `Mux` of lib/natpunch_mux/mux.go: the frames it sends and receives, the connections between them,
-- and how a connection and the mux itself are closed (`conn.Close` of conn.go, `connMap.Close` of
-- map.go). A pointer to a connection is a place in `objects`, which is never given up, and `conn_map`
-- is `connMap`. A handler is one step. `written` are the frames on the connection
-- to the other side. The wake-ups, the channel between the two ends of `Accept` and
-- the measurements are left out; `handed` are the connections that `Accept` gets.
pub mod Rest
pub mod Closing
pub mod Sweep
pub mod Quiet
pub mod Reach
pub mod Isolation
pub mod Traffic
pub mod Runs
use nat_punch.Base.{
  ◌%◌, ◌^◌, ℕ, zero, suc, ◌+◌, Bool, true, false, not, ◌&&◌, ◌||◌, List, [], ◌∷◌, ◌++◌, Option,
  none, some, length, get_or, set, map, ◌==◌, if◌then◌else◌,
}
use nat_punch.Base.Int.{ℤ, pos, pos_part, leb_ℤ}
use nat_punch.Base.Maps.{Map}
use nat_punch.Mux.ConnMap.{new_conn_map, get, set_conn, delete_conn, get_id}
use nat_punch.Mux.Frame
use nat_punch.Mux.Frame.{
  Packager, blank, Info, nil, bytes, size, mux_ping_flag, mux_new_conn_ok, mux_new_conn_fail,
  mux_new_msg, mux_new_msg_part, mux_msg_send_ok, mux_new_conn, mux_conn_close, mux_ping_return,
  mux_ping,
}
use nat_punch.Mux.Priority
use nat_punch.Mux.Priority.{Queue}
use nat_punch.Mux.ReceiveWindow
use nat_punch.Mux.SendWindow
use nat_punch.Mux.Conn.{Conn, Once, fresh, running, done, new_conn, stop, close_windows}

pub record Session : Type 0 where
  pub conn_map : Map ℕ
  pub objects : List Conn
  pub id : ℕ
  pub is_close : Bool
  pub close_once : Once
  pub write_queue : Queue
  pub new_conn_queue : List ℕ
  pub handed : List ℕ
  pub pings : List (List ℕ)
  pub ping_check_time : ℕ
  pub ping_check_threshold : ℕ
  pub written : List (List ℕ)
  pub released : Bool
  pub blocked : Bool

unfoldable pub threshold_of : (kcp : Bool) → ℤ → ℕ
threshold_of kcp threshold =
    if leb_ℤ threshold (pos 0) then (if kcp then 20 else 60) else pos_part threshold % 2 ^ 32

-- `NewMux` with its queue's limit; `kcp` is whether the connection type is `kcp`.
unfoldable pub new : Bool → ℤ → Session
new kcp threshold = record {
  conn_map = new_conn_map;
  objects = [];
  id = 0;
  is_close = false;
  close_once = fresh;
  write_queue = Priority.new;
  new_conn_queue = [];
  handed = [];
  pings = [];
  ping_check_time = 0;
  ping_check_threshold = threshold_of kcp threshold;
  written = [];
  released = false;
  blocked = false;
}

abbrev pub at : Session → ℕ → Conn
at s r = get_or s.objects r (new_conn 0)

abbrev pub update : ℕ → (Conn → Conn) → Session → Session
update r f s = record s { objects = set s.objects r (f (at s r)) }

-- A call into a `sync.Once` that is running waits for itself.
abbrev pub block : Session → Session
block s = record s { blocked = true }

-- `buffer` is what the pool of buffers hands out.
module _ (buffer : List ℕ) where
  abbrev pub queued : (Session → Session) → Session → Option Queue → Session
  queued close s none = close s
  queued close s (some q) = record s { write_queue = q }

  abbrev pub set_packager : (Session → Session) → Session → Option Packager → Session
  set_packager close s none = close s
  set_packager close s (some p) = queued close s (Priority.push p s.write_queue)

  -- `sendInfo`, where `close` is `Mux.Close`.
  unfoldable pub send_info : (close : Session → Session) → ℕ → ℕ → Info → Session → Session
  send_info close flag id info s =
      if s.is_close then s else set_packager close s (Frame.set blank buffer flag id info)

  -- `closeProcess`.
  unfoldable pub close_process : (close : Session → Session) → ℕ → Session → Session
  close_process close r s =
      let id = (at s r).conn_id in
      let s1 = update r (λ c. record c { is_close = true; once = running }) s in
      let s2 = record s1 { conn_map = delete_conn id s1.conn_map } in
      let s3 = if s2.is_close then s2 else send_info close mux_conn_close id nil s2 in
      update r (λ c. record (close_windows c) { once = done }) s3

  -- `conn.Close`.
  abbrev pub once_conn : Once → (close : Session → Session) → ℕ → Session → Session
  once_conn fresh close r s = close_process close r s
  once_conn running close r s = block s
  once_conn done close r s = s

  unfoldable pub close_conn : (close : Session → Session) → ℕ → Session → Session
  close_conn close r s = once_conn (at s r).once close r s

  -- `connMap.Close` over its snapshot.
  unfoldable pub close_all : (close : Session → Session) → List ℕ → Session → Session
  close_all close [] s = s
  close_all close (r ∷ rs) s = close_all close rs (close_conn close r s)

  abbrev pub snapshot : Session → List ℕ
  snapshot s = map (λ (e : ℕ × ℕ). e.1) s.conn_map

  -- The body of `Mux.Close`, whose `closeOnce` has been entered.
  unfoldable pub close_body : (close : Session → Session) → Session → Session
  close_body close s =
      let s1 = record s { is_close = true; close_once = running } in
      let s2 = close_all close (snapshot s1) s1 in record s2 { released = true; close_once = done }

  abbrev pub once_mux : Once → (close : Session → Session) → Session → Session
  once_mux fresh close s = close_body close s
  once_mux running close s = block s
  once_mux done close s = s

  -- `Mux.Close`, with so many calls of it inside one another.
  unfoldable pub close_within : (depth : ℕ) → Session → Session
  close_within zero s = block s
  close_within (suc depth) s = once_mux s.close_once (close_within depth) s

  unfoldable pub close : Session → Session
  close s = close_within 1 s

  -- `Write` of the receive window, in `newMsg`: an error closes the connection.
  abbrev pub acknowledge : ℕ → Option ℕ → Session → Session
  acknowledge id none s = s
  acknowledge id (some word) s = send_info close mux_msg_send_ok id (size word) s

  abbrev pub stored : ℕ → ℕ → Session → ReceiveWindow.Write → Session
  stored r id s ReceiveWindow.closed = close_conn close r s
  stored r id s ReceiveWindow.not_match = close_conn close r s
  stored r id s (ReceiveWindow.written ack wakes w) =
      acknowledge id ack (update r (λ c. record c { receive_window = w }) s)

  -- `calculated` is what `calcSize` computes.
  unfoldable pub new_msg : Option ℕ → ℕ → Packager → Session → Session
  new_msg calculated r p s = stored r p.id s (
      ReceiveWindow.write calculated p.content p.length (p.flag == mux_new_msg_part)
        (at s r).receive_window)

  abbrev pub slid : ℕ → Session → SendWindow.Acked → Session
  slid r s SendWindow.closed = s
  slid r s SendWindow.ignored = s
  slid r s (SendWindow.applied wakes w) = update r (λ c. record c { send_window = w }) s

  -- The inner switch of `readSession`.
  unfoldable pub deliver : Option ℕ → ℕ → Packager → Session → Session
  deliver calculated r p s =
      if p.flag == mux_new_msg || p.flag == mux_new_msg_part
      then new_msg calculated r p s
      else if p.flag == mux_new_conn_ok
      then update r (λ c. record c { conn_status_ok = true }) s
      else if p.flag == mux_new_conn_fail
      then update r (λ c. record c { conn_status_fail = true }) s
      else if p.flag == mux_msg_send_ok
      then slid r s (SendWindow.set_size p.window (at s r).send_window)
      else if p.flag == mux_conn_close
      then update r (λ c. stop (record c { closing_flag = true })) s
      else s

  abbrev pub deliver_to : Option ℕ → Packager → Session → Option ℕ → Session
  deliver_to calculated p s none = s
  deliver_to calculated p s (some r) = if (at s r).is_close then s else deliver calculated r p s

  -- The frames of a new connection and of the pings.
  abbrev pub arrive : Packager → Session → Session
  arrive p s = record s {
    objects = s.objects ++ new_conn p.id ∷ [];
    new_conn_queue = s.new_conn_queue ++ length s.objects ∷ [];
  }

  -- One frame of `readSession`.
  unfoldable pub read_frame : Option ℕ → Packager → Session → Session
  read_frame calculated p s =
      if s.is_close
      then s
      else if p.flag == mux_new_conn
      then arrive p s
      else if p.flag == mux_ping_flag
      then send_info close mux_ping_return mux_ping (bytes p.content) s
      else if p.flag == mux_ping_return
      then record s { pings = s.pings ++ p.content ∷ [] }
      else deliver_to calculated p s (get p.id s.conn_map)

  -- The goroutine behind `newConnQueue`; a reader of `Accept` is there.
  abbrev pub hand_over : List ℕ → Session → Session
  hand_over [] s = s
  hand_over (r ∷ rs) s =
      let id = (at s r).conn_id in
      send_info close mux_new_conn_ok id nil (record s {
        new_conn_queue = rs;
        conn_map = set_conn id r s.conn_map;
        handed = s.handed ++ r ∷ [];
      })

  unfoldable pub accept_next : Session → Session
  accept_next s = if s.is_close then s else hand_over s.new_conn_queue s

  -- `Mux.NewConn` up to the wait for an answer; the result is the connection.
  abbrev pub numbered : Session → Option ℕ → Option (ℕ × Session)
  numbered s none = none
  numbered s (some id) = some (
    length s.objects,
    send_info close mux_new_conn id nil (record s {
      id = id;
      objects = s.objects ++ new_conn id ∷ [];
      conn_map = set_conn id (length s.objects) s.conn_map;
    }),
  )

  unfoldable pub open_conn : Session → Option (ℕ × Session)
  open_conn s =
      if s.is_close then none else numbered s (get_id (length s.conn_map + 1) s.id s.conn_map)
