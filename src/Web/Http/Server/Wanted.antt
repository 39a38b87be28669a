-- ===== src/Web/Http/Server/Wanted.antt =====
-- WebServer.cpp: the RTMP thread is told of each device that is added or removed.
use multi_process_server.Base.{
  ℕ, ◌≡◌, refl, sym, ap, ◌∙◌, ◌==◌, ==_iff, if◌then◌else◌, if_elim, if_then, if_else, Bool-cases,
  inl, inr, Bool, true, false, [], ◌∷◌, ◌++◌, List, Bytes, arith,
}
use multi_process_server.DeviceId.{generate_device_id}
use multi_process_server.Forward.Server.{type_of, subscribe_device_id, unsubscribe_device_id}
use multi_process_server.Web.Rtmp.Thread.{Task, type_jt1078_packet}
use multi_process_server.Web.Http.Sessions.{exists, add, remove, get_device_id_from_str}
use multi_process_server.Web.Http.Sessions.Entries.{exists-add, exists-remove}
use multi_process_server.Web.Http.Server.{
  Server, send_if_connected, subscribe_type, unsubscribe_type, notify_start, notify_stop,
  on_client_message,
}

-- Whether a device is wanted after a task: the last task to subscribe or to unsubscribe it says so.
abbrev pub after_task : ℕ → Task → Bool → Bool
after_task id t before =
    if type_of t.pkt_type == subscribe_device_id
    then (if generate_device_id t.data_bytes == id then true else before)
    else if type_of t.pkt_type == unsubscribe_device_id
    then (if generate_device_id t.data_bytes == id then false else before)
    else before

-- Whether a device is wanted after all these tasks.
unfoldable pub wanted : ℕ → List Task → Bool → Bool
wanted id [] before = before
wanted id (t ∷ ts) before = wanted id ts (after_task id t before)

pub wanted-last :
    (id : ℕ) (ts : List Task) (t : Task) (before : Bool)
    → wanted id (ts ++ t ∷ []) before ≡ after_task id t (wanted id ts before)
unfolding wanted
wanted-last id [] t before = refl
wanted-last id (u ∷ ts) t before = wanted-last id ts t (after_task id u before)

module _ (t : ℕ) (text : Bytes) (s : Server) where
  -- A packet to the forward server changes nothing but the list of such packets.
  pub send_sessions : (send_if_connected t text s).sessions ≡ s.sessions
  send_sessions = ground arith

  pub send_device_ids : (send_if_connected t text s).device_ids ≡ s.device_ids
  send_device_ids = ground arith

  pub send_tasks : (send_if_connected t text s).tasks ≡ s.tasks
  send_tasks = ground arith

-- The tasks say which devices are watched.
abbrev pub IsTold : Server → Type 0
IsTold s = (id : ℕ) → wanted id s.tasks false ≡ exists id s.device_ids

module _ (text : Bytes) (s : Server) where
  pub start_sessions : (notify_start text s).sessions ≡ s.sessions
  unfolding notify_start
  start_sessions = ground arith

  pub stop_sessions : (notify_stop text s).sessions ≡ s.sessions
  unfolding notify_stop
  stop_sessions = ground arith

  pub start_device_ids :
      (id : ℕ)
      → exists id (notify_start text s).device_ids
        ≡ (if generate_device_id text == id then true else exists id s.device_ids)
  unfolding notify_start get_device_id_from_str
  start_device_ids id =
      let k = generate_device_id text in
      if_elim
        (λ (s' : Server).
          exists id s'.device_ids ≡ (if k == id then true else exists id s.device_ids))
        (exists k s.device_ids)
        (λ there. elim (Bool-cases (k == id)) [
          | inl e ↦
              ap (λ j. exists j s.device_ids) (sym ((==_iff k id).0 e))
              ∙ there
              ∙ sym (if_then (k == id) true (exists id s.device_ids) e)
          | inr e ↦ sym (if_else (k == id) true (exists id s.device_ids) e)
        ])
        λ _.
          ap (exists id)
            (send_device_ids subscribe_type text (record s { device_ids = add k s.device_ids }))
          ∙ exists-add k id s.device_ids

  pub stop_device_ids :
      (id : ℕ)
      → exists id (notify_stop text s).device_ids
        ≡ (if generate_device_id text == id then false else exists id s.device_ids)
  unfolding notify_stop get_device_id_from_str
  stop_device_ids id =
      ap (exists id) (
        send_device_ids unsubscribe_type text
          (record s { device_ids = remove (generate_device_id text) s.device_ids }))
      ∙ exists-remove (generate_device_id text) id s.device_ids

  pub notify_start-IsTold : IsTold s → IsTold (notify_start text s)
  unfolding notify_start get_device_id_from_str
  notify_start-IsTold told id =
      let k = generate_device_id text in
      let added : Server = record s { device_ids = add k s.device_ids } in
      let task : Task = record { pkt_type = subscribe_type; data_bytes = text } in
      if_elim (λ (s' : Server). wanted id s'.tasks false ≡ exists id s'.device_ids)
        (exists k s.device_ids) (λ there. told id)
        λ _.
          ap (λ ts. wanted id (ts ++ task ∷ []) false) (send_tasks subscribe_type text added)
          ∙ wanted-last id s.tasks task false
          ∙ ap (λ (b : Bool). if k == id then true else b) (told id)
          ∙ sym (
              ap (exists id) (send_device_ids subscribe_type text added)
              ∙ exists-add k id s.device_ids)

  pub notify_stop-IsTold : IsTold s → IsTold (notify_stop text s)
  unfolding notify_stop get_device_id_from_str
  notify_stop-IsTold told id =
      let k = generate_device_id text in
      let removed : Server = record s { device_ids = remove k s.device_ids } in
      let task : Task = record { pkt_type = unsubscribe_type; data_bytes = text } in
      ap (λ ts. wanted id (ts ++ task ∷ []) false) (send_tasks unsubscribe_type text removed)
      ∙ wanted-last id s.tasks task false
      ∙ ap (λ (b : Bool). if k == id then false else b) (told id)
      ∙ sym (stop_device_ids id)

-- A packet of a car is a task that wants nothing.
pub on_client_message-IsTold :
    (t : ℕ) (xs : Bytes) (s : Server) → IsTold s → IsTold (on_client_message t xs s)
unfolding on_client_message
on_client_message-IsTold t xs s told id =
    let task : Task = record { pkt_type = t; data_bytes = xs } in
    if_elim (λ (s' : Server). wanted id s'.tasks false ≡ exists id s'.device_ids)
      (type_of t == type_jt1078_packet)
      (λ car.
        wanted-last id s.tasks task false
        ∙ rw ((==_iff (type_of t) type_jt1078_packet).0 car) (told id))
      (λ _. told id)
