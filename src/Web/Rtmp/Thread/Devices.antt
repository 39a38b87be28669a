-- ===== src/Web/Rtmp/Thread/Devices.antt =====
-- RtmpThread.cpp: a task concerns the client of one device.
use multi_process_server.Base.{
  ℕ, ◌≡◌, ==_iff, sym, refl, ap, ◌∙◌, ltb, ◌==◌, if◌then◌else◌, if_elim, if_else, Bool, true, false,
  Option, none, some, ◌>>=◌, Bytes, length, find, insert, erase, find-insert, find-erase, ℤ, pos,
  negsuc,
}
use multi_process_server.DeviceId.{generate_device_id}
use multi_process_server.Forward.Subscriber.{device_id_size}
use multi_process_server.Forward.Server.{type_of, subscribe_device_id, unsubscribe_device_id}
use multi_process_server.Web.Audio.Codec.{Coders}
use multi_process_server.Web.Rtmp.Stream.{Media}
use multi_process_server.Web.Rtmp.Client.{Client, new_client, process_jt1078_packet}
use multi_process_server.Web.Rtmp.Thread.{
  type_jt1078_packet, Task, device_id_at, packet_behind, Clients, create_rtmp_client, keep,
  handle_packet, handler_task,
}

-- The device that the data of a task names, for its type.
abbrev pub device_of : Task → ℕ
device_of t =
    if type_of t.pkt_type == type_jt1078_packet
    then device_id_at t.data_bytes
    else generate_device_id t.data_bytes

other_type :
    (k s : ℕ)
    → (s == type_jt1078_packet) ≡ false
    → (k == s) ≡ true
    → (k == type_jt1078_packet) ≡ false
other_type k s differ same = ap (λ n. n == type_jt1078_packet) ((==_iff k s).0 same) ∙ differ

module _ (coders : Coders) (m : Media) (url_prefix : Bytes) (fresh : m.State) (j : ℕ)
    (clients : Clients coders m) where
  -- The client of the device is as before.
  abbrev pub Kept : Option (Clients coders m) → Type 0
  Kept none = Unit {0}
  Kept (some after) = find j after ≡ find j clients

  insert-Kept :
      (id : ℕ) (c : Client coders m)
      → (id == j) ≡ false
      → find j (insert id c clients) ≡ find j clients
  insert-Kept id c other = find-insert id j c clients ∙ if_else (id == j) _ _ other

  erase-Kept : (id : ℕ) → (id == j) ≡ false → find j (erase id clients) ≡ find j clients
  erase-Kept id other = find-erase id j clients ∙ if_else (id == j) _ _ other

  keep-Kept :
      (id : ℕ) (r : ℤ × Client coders m)
      → (id == j) ≡ false
      → find j (keep coders m url_prefix fresh id clients r) ≡ find j clients
  keep-Kept id (pos n, c) other = insert-Kept id c other
  keep-Kept id (negsuc n, c) other = erase-Kept id other

  bind-Kept :
      {A : Type 0} (o : Option A) (f : A → Option (Clients coders m))
      → ((a : A) → Kept (f a))
      → Kept (o >>= f)
  bind-Kept none f h = tt
  bind-Kept (some a) f h = h a

  find-Kept :
      (o : Option (Client coders m)) (f : Client coders m → Option (Clients coders m))
      → ((c : Client coders m) → Kept (f c))
      → Kept (elim o [ none ↦ some clients | some c ↦ f c ])
  find-Kept none f h = refl
  find-Kept (some c) f h = h c

  create-Kept :
      (id : ℕ) (o : Option (Client coders m))
      → (id == j) ≡ false
      → Kept (
          some (elim o [
            | some c ↦ clients
            | none ↦ insert id (new_client coders m id url_prefix fresh) clients
          ]))
  create-Kept id (some c) other = refl
  create-Kept id none other = insert-Kept id (new_client coders m id url_prefix fresh) other

  packet-Kept :
      (xs : Bytes)
      → (device_id_at xs == j) ≡ false
      → Kept (handle_packet coders m url_prefix fresh xs clients)
  unfolding handle_packet
  packet-Kept xs other =
      if_elim Kept (ltb (length xs) device_id_size) (λ _. tt)
        (λ _. find-Kept (find (device_id_at xs) clients) _ (λ c.
          bind-Kept (packet_behind xs) _ (λ p.
            bind-Kept (process_jt1078_packet coders m p c) _
              (λ r. keep-Kept (device_id_at xs) r other))))

  -- A task leaves the client of every device as it is that its data does not name.
  pub handler_task-Kept :
      (t : Task)
      → (device_of t == j) ≡ false
      → Kept (handler_task coders m url_prefix fresh t clients)
  unfolding handler_task create_rtmp_client
  handler_task-Kept t other =
      let k = type_of t.pkt_type in
      let named : (b : Bool)
          → (k == type_jt1078_packet) ≡ b
          → ((if b then device_id_at t.data_bytes else generate_device_id t.data_bytes) == j)
            ≡ false =
        λ b e.
          sym (
            ap
              (λ b. (if b then device_id_at t.data_bytes else generate_device_id t.data_bytes) == j)
              e)
          ∙ other in
      if_elim Kept (k == subscribe_device_id)
        (λ e.
          create-Kept (generate_device_id t.data_bytes)
            (find (generate_device_id t.data_bytes) clients)
            (named false (other_type k subscribe_device_id refl e)))
        (λ _.
          if_elim Kept (k == unsubscribe_device_id)
            (λ e.
              erase-Kept (generate_device_id t.data_bytes)
                (named false (other_type k unsubscribe_device_id refl e)))
            (λ _.
              if_elim Kept (k == type_jt1078_packet) (λ e. packet-Kept t.data_bytes (named true e))
                (λ _. refl)))
