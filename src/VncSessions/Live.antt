-- ===== src/VncSessions/Live.antt =====
-- What makes a session of the map a live one, and the changes that keep it so.
use pvetui.Base.{
  ℕ, ◌-◌, ◌<◌, List, [], ◌∷◌, none, some, true, false, Str, str_eq, str_eq_iff, if◌then◌else◌, Dict,
  get, put, delete, Distinct, get-put, get-delete, put-Distinct, delete-Distinct, ◌≡◌, ◌≢◌, inl,
  inr, sym, ◌∙◌, arith, Bool-cases, Option-cases, ◌==◌,
}
use pvetui.VncSessions.{
  SessionManager, VncSession, SessionState, on_client_connected, on_client_disconnected,
  is_disconnected,
}
use pvetui.VncSessions.Opening.{reactivated}
use pvetui.VncSessions.Closing.{remove_sessions, delete-shut_at, change_session}

-- Whether the state goes with the number of clients: connected with some, active and disconnected with
-- none. A closed session goes with no number.
abbrev pub Fits : SessionState → ℕ → Type 0
Fits SessionState.active n = n ≡ 0
Fits SessionState.connected n = 0 < n
Fits SessionState.disconnected n = n ≡ 0
Fits SessionState.closed n = ⊥

pub record IsLive (id : Str) (s : VncSession) : Type 0 where
  pub has_id : s.id ≡ id
  pub fits : Fits s.state s.active_connections
  pub channel : s.has_channel ≡ true

abbrev pub AllLive : Dict VncSession → Type 0
AllLive m = (id : Str) (s : VncSession) → get id m ≡ some s → IsLive id s

abbrev pub AreLive : SessionManager → Type 0
AreLive sm = Distinct sm.sessions × AllLive sm.sessions

pub put-AllLive :
    (id : Str) (s : VncSession) (m : Dict VncSession)
    → AllLive m
    → IsLive id s
    → AllLive (put id s m)
put-AllLive id s m live h j t e = elim (Bool-cases (str_eq id j)) [
  | inl y ↦ rw (← (str_eq_iff id j).0 y, ← same y) h
  | inr n ↦ live j t (other n)
]
  where
    same : str_eq id j ≡ true → s ≡ t
    same y = let q = sym (get-put id j s m) ∙ e in ground (arith, q)

    other : str_eq id j ≡ false → get j m ≡ some t
    other n = let q = sym (get-put id j s m) ∙ e in rw n at q

pub none-AllLive : AllLive []
unfolding get
none-AllLive id s e = cc

pub delete-AllLive : (id : Str) (m : Dict VncSession) → AllLive m → AllLive (delete id m)
delete-AllLive id m live j t e = elim (Bool-cases (str_eq id j)) [
  | inl y ↦ let q = sym (get-delete id j m) ∙ e in absurd (gone (rw y at q))
  | inr n ↦ let q = sym (get-delete id j m) ∙ e in live j t (rw n at q)
]
  where
    gone : none ≡ some t → ⊥
    gone q = cc

pub remove_sessions-AreLive :
    (ids : List Str) (m : Dict VncSession)
    → Distinct m × AllLive m
    → Distinct (remove_sessions ids m) × AllLive (remove_sessions ids m)
unfolding remove_sessions
remove_sessions-AreLive [] m h = h
remove_sessions-AreLive (id ∷ ids) m h =
    rw (delete-shut_at id m) (
      remove_sessions-AreLive ids (delete id m) (delete-Distinct id m h.0, delete-AllLive id m h.1))

pub change_session-AreLive :
    (sm : SessionManager) (id : Str) (f : VncSession → VncSession)
    → ((s : VncSession) → IsLive id s → IsLive id (f s))
    → AreLive sm
    → AreLive (change_session sm id f)
change_session-AreLive sm id f h sound = elim (Option-cases (get id sm.sessions)) [
  | inl e ↦ rw e sound
  | inr (s, e) ↦ rw e (
    put-Distinct id (f s) sm.sessions sound.0,
    put-AllLive id (f s) sm.sessions sound.1 (h s (sound.1 id s e)),
  )
]

pub connected-IsLive :
    (id : Str) (now : ℕ) (s : VncSession) → IsLive id s → IsLive id (on_client_connected s now)
unfolding on_client_connected
connected-IsLive id now s h = record { has_id = h.has_id; fits = omega arith; channel = h.channel }

count_down : (state : SessionState) (n : ℕ) → Fits state n → n - 1 ≢ 0 → Fits state (n - 1)
count_down SessionState.active n h k = omega arith
count_down SessionState.connected n h k = omega arith
count_down SessionState.disconnected n h k = omega arith
count_down SessionState.closed n h k = absurd h

pub disconnected-IsLive :
    (id : Str) (s : VncSession) → IsLive id s → IsLive id (on_client_disconnected s)
unfolding on_client_disconnected
disconnected-IsLive id s h = elim (Bool-cases (s.active_connections - 1 == 0)) [
  | inl y ↦ rw y (record { has_id = h.has_id; fits = ground arith; channel = h.channel })
  | inr n ↦ rw n (record {
    has_id = h.has_id;
    fits = count_down s.state s.active_connections h.fits (ground arith);
    channel = h.channel;
  })
]

pub reactivated-IsLive :
    (id : Str) (now : ℕ) (s : VncSession) → IsLive id s → IsLive id (reactivated s now)
reactivated-IsLive id now s h = record {
  has_id = h.has_id;
  fits = by_state s.state s.active_connections h.fits;
  channel = h.channel;
}
  where
    by_state :
        (state : SessionState) (n : ℕ)
        → Fits state n
        → Fits (if is_disconnected state then SessionState.active else state) n
    by_state SessionState.active n f = f
    by_state SessionState.connected n f = f
    by_state SessionState.disconnected n f = f
    by_state SessionState.closed n f = absurd f
