-- ===== src/Web/Http/Handlers/Watched.antt =====
-- HttpSrsOnSessionHandler.cpp and WebServer.cpp: the streams that have clients are watched.
use multi_process_server.Base.{
  ℕ, ◌≡◌, refl, sym, ap, ◌∙◌, subst, ◌≢◌, ◌==◌, ==_iff, if_elim, if_then, if_else, Bool-cases, inl,
  inr, true, false, [], ◌∷◌, List, Bytes, length, arith, same_text, same_text-cases, same_text_self,
}
use mathlib.Core.Bool.{true≢false}
use multi_process_server.DeviceId.{generate_device_id, check_device_id_str_fmt}
use multi_process_server.DeviceId.Digits.{generate_device_id-injective}
use multi_process_server.Web.Http.Sessions.{
  SessionStat, DeviceIds, clients_of, size, empty_client_id, del_id, del_client_id, add_client_id,
  release_stream, exists,
}
use multi_process_server.Web.Http.Sessions.Entries.{
  clients_of-insert_text_self, clients_of-insert_text_other, clients_of-with_entry,
  clients_of-release_stream_self, clients_of-release_stream_other, del_id-nonempty,
}
use multi_process_server.Web.Http.Server.{Server, notify_start, notify_stop}
use multi_process_server.Web.Http.Server.Wanted.{
  IsTold, start_sessions, start_device_ids, stop_device_ids, notify_start-IsTold,
  notify_stop-IsTold,
}
use multi_process_server.Web.Http.Handlers.{session_stop, session_play}

-- Every stream with a client has a text of 14 digits, and its device is in the set.
abbrev pub AllWatched : SessionStat → DeviceIds → Type 0
AllWatched m ids =
    (stream : Bytes)
    → clients_of stream m ≢ []
    → (check_device_id_str_fmt stream ≡ true) × (exists (generate_device_id stream) ids ≡ true)

-- So it is, and the RTMP thread has been told of the devices in the set.
pub record IsWatched (s : Server) : Type 0 where
  pub all_watched : AllWatched s.sessions s.device_ids
  pub told : IsTold s

module _ (text : Bytes) (s : Server) where
  start_keeps :
      (id : ℕ) → exists id s.device_ids ≡ true → exists id (notify_start text s).device_ids ≡ true
  start_keeps id h =
      start_device_ids text s id
      ∙ if_elim (λ b. b ≡ true) (generate_device_id text == id) (λ _. refl) (λ _. h)

  start_has : exists (generate_device_id text) (notify_start text s).device_ids ≡ true
  start_has =
      start_device_ids text s (generate_device_id text)
      ∙ if_then (generate_device_id text == generate_device_id text) true _
          ((==_iff (generate_device_id text) (generate_device_id text)).1 refl)

  pub notify_start-IsWatched : IsWatched s → IsWatched (notify_start text s)
  notify_start-IsWatched w = record {
    all_watched = λ stream some_client.
        let (digits, there) =
          w.all_watched stream
            (λ e. some_client (ap (clients_of stream) (start_sessions text s) ∙ e)) in
        (digits, start_keeps (generate_device_id stream) there);
    told = notify_start-IsTold text s w.told;
  }

empty_stream :
    (stream : Bytes) (m : SessionStat)
    → (empty_client_id stream m).0 ≡ true
    → clients_of stream m ≡ []
unfolding empty_client_id size
empty_stream stream m h = nil_of (clients_of stream m) h
  where
    nil_of : (ids : List Bytes) → (length ids == 0) ≡ true → ids ≡ []
    nil_of [] e = refl
    nil_of (c ∷ ids) e = absurd (ground arith)

nonempty_stream :
    (stream : Bytes) (m : SessionStat)
    → (empty_client_id stream m).0 ≡ false
    → clients_of stream m ≢ []
unfolding empty_client_id size
nonempty_stream stream m h = cons_of (clients_of stream m) h
  where
    cons_of : (ids : List Bytes) → (length ids == 0) ≡ false → ids ≢ []
    cons_of [] e = cc
    cons_of (c ∷ ids) e = λ f. cc

clients_of-empty_client_id :
    (stream other : Bytes) (m : SessionStat)
    → clients_of other (empty_client_id stream m).1 ≡ clients_of other m
unfolding empty_client_id size
clients_of-empty_client_id stream other m = clients_of-with_entry stream other m

module _ (stream client : Bytes) (s : Server) (digits : check_device_id_str_fmt stream ≡ true)
    (w : IsWatched s) where
  abbrev seen : SessionStat
  seen = (empty_client_id stream s.sessions).1

  play_watched :
      (s' : Server)
      → exists (generate_device_id stream) s'.device_ids ≡ true
      → ((id : ℕ) → exists id s.device_ids ≡ true → exists id s'.device_ids ≡ true)
      → AllWatched (add_client_id stream client seen) s'.device_ids
  unfolding add_client_id
  play_watched s' here keeps other some_client = elim (same_text-cases stream other) [
    | inl e ↦
        subst
          (λ (o : Bytes).
            (check_device_id_str_fmt o ≡ true)
            × (exists (generate_device_id o) s'.device_ids ≡ true))
          e (digits, here)
    | inr e ↦
        let (d, there) = w.all_watched other (λ none_left. some_client (
          clients_of-insert_text_other stream other _ seen e
          ∙ clients_of-empty_client_id stream other s.sessions
          ∙ none_left)) in
        (d, keeps (generate_device_id other) there)
  ]

  -- After a client has begun to watch a stream all streams with clients are watched.
  pub session_play-IsWatched : IsWatched (session_play stream client s)
  unfolding session_play
  session_play-IsWatched =
      let s1 : Server = record s { sessions = seen } in
      if_elim
        (λ (s' : Server). IsWatched (record s' { sessions = add_client_id stream client seen }))
        (empty_client_id stream s.sessions).0
        (λ e. record {
          all_watched =
              play_watched (notify_start stream s1) (start_has stream s1) (start_keeps stream s1);
          told = notify_start-IsTold stream s1 w.told;
        })
        (λ e. record {
          all_watched =
              play_watched s1 (w.all_watched stream (nonempty_stream stream s.sessions e)).1
                (λ id h. h);
          told = w.told;
        })

  abbrev fewer : SessionStat
  fewer = del_client_id stream client s.sessions

  abbrev looked : SessionStat
  looked = (empty_client_id stream fewer).1

  looked_other :
      (other : Bytes)
      → same_text stream other ≡ false
      → clients_of other looked ≡ clients_of other s.sessions
  unfolding del_client_id
  looked_other other e =
      clients_of-empty_client_id stream other fewer
      ∙ clients_of-insert_text_other stream other _ s.sessions e

  looked_self : clients_of stream looked ≡ del_id client (clients_of stream s.sessions)
  unfolding del_client_id
  looked_self =
      clients_of-empty_client_id stream stream fewer
      ∙ clients_of-insert_text_self stream _ s.sessions

  still_watched : AllWatched looked s.device_ids
  still_watched other some_client = elim (same_text-cases stream other) [
    | inl e ↦ w.all_watched other (
        subst (λ (o : Bytes). clients_of o looked ≢ [] → clients_of o s.sessions ≢ []) e
          (λ h. del_id-nonempty client (clients_of stream s.sessions) (λ f. h (looked_self ∙ f)))
          some_client)
    | inr e ↦ w.all_watched other (λ f. some_client (looked_other other e ∙ f))
  ]

  other_id :
      (other : Bytes)
      → check_device_id_str_fmt other ≡ true
      → same_text stream other ≡ false
      → (generate_device_id stream == generate_device_id other) ≡ false
  other_id other d e = elim (Bool-cases (generate_device_id stream == generate_device_id other)) [
    | inl same ↦
        let equal : stream ≡ other =
          generate_device_id-injective stream other digits d
            ((==_iff (generate_device_id stream) (generate_device_id other)).0 same) in
        absurd (true≢false (sym (ap (same_text stream) (sym equal) ∙ same_text_self stream) ∙ e))
    | inr no_match ↦ no_match
  ]

  released :
      AllWatched
        (release_stream stream looked)
        (notify_stop stream (record s { sessions = looked })).device_ids
  released other some_client = elim (same_text-cases stream other) [
    | inl e ↦ absurd (
        some_client (
          subst (λ (o : Bytes). clients_of o (release_stream stream looked) ≡ []) e
            (clients_of-release_stream_self stream looked)))
    | inr e ↦
        let (d, there) =
          still_watched other
            (λ f. some_client (clients_of-release_stream_other stream other looked e ∙ f)) in
        let id = generate_device_id other in
        (
          d,
          stop_device_ids stream (record s { sessions = looked }) id
              ∙ if_else (generate_device_id stream == id) false _ (other_id other d e)
              ∙ there,
        )
  ]

  -- The same after one has ended.
  pub session_stop-IsWatched : IsWatched (session_stop stream client s)
  unfolding session_stop
  session_stop-IsWatched =
      let s1 : Server = record s { sessions = looked } in
      if_elim IsWatched (empty_client_id stream fewer).0
        (λ e. record { all_watched = released; told = notify_stop-IsTold stream s1 w.told })
        (λ e. record { all_watched = still_watched; told = w.told })
