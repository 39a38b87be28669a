-- ===== src/Web/Http/Sessions/Entries.antt =====
-- HttpSrsOnSessionHandler.h and DeviceIdMgr.h: what the operations leave under each key.
use multi_process_server.Base.{
  ℕ, ◌≡◌, refl, ap, ◌==◌, if◌then◌else◌, true, false, inl, inr, ◌≢◌, [], ◌∷◌, List, Bytes,
  find-insert, find-erase, same_text, same_text-cases, insert_text, find_text-insert_text_self,
  find_text-insert_text_other, find_text-erase_text_self, find_text-erase_text_other, arith, subst,
}
use multi_process_server.Web.Http.Sessions.{
  SessionStat, DeviceIds, or_none, clients_of, with_entry, del_id, release_stream, exists, add,
  remove,
}

pub clients_of-insert_text_self :
    (k : Bytes) (v : List Bytes) (m : SessionStat) → clients_of k (insert_text k v m) ≡ v
unfolding clients_of
clients_of-insert_text_self k v m = ap or_none (find_text-insert_text_self k v m)

pub clients_of-insert_text_other :
    (k j : Bytes) (v : List Bytes) (m : SessionStat)
    → same_text k j ≡ false
    → clients_of j (insert_text k v m) ≡ clients_of j m
unfolding clients_of
clients_of-insert_text_other k j v m h = ap or_none (find_text-insert_text_other k j v m h)

-- Looking at a stream leaves the clients of every stream.
pub clients_of-with_entry :
    (k j : Bytes) (m : SessionStat) → clients_of j (with_entry k m) ≡ clients_of j m
unfolding with_entry
clients_of-with_entry k j m = elim (same_text-cases k j) [
  | inl e ↦
      subst (λ i. clients_of i (with_entry k m) ≡ clients_of i m) e
        (clients_of-insert_text_self k (clients_of k m) m)
  | inr e ↦ clients_of-insert_text_other k j (clients_of k m) m e
]

pub clients_of-release_stream_self :
    (k : Bytes) (m : SessionStat) → clients_of k (release_stream k m) ≡ []
unfolding clients_of release_stream
clients_of-release_stream_self k m = ap or_none (find_text-erase_text_self k m)

pub clients_of-release_stream_other :
    (k j : Bytes) (m : SessionStat)
    → same_text k j ≡ false
    → clients_of j (release_stream k m) ≡ clients_of j m
unfolding clients_of release_stream
clients_of-release_stream_other k j m h = ap or_none (find_text-erase_text_other k j m h)

pub del_id-nonempty : (c : Bytes) (ids : List Bytes) → del_id c ids ≢ [] → ids ≢ []
unfolding del_id
del_id-nonempty c [] h e = h refl
del_id-nonempty c (d ∷ ds) h e = cc

pub exists-add :
    (k id : ℕ) (m : DeviceIds) → exists id (add k m) ≡ (if k == id then true else exists id m)
unfolding exists add
exists-add k id m = ground (arith, find-insert {V = Unit {0}} k id tt m)

pub exists-remove :
    (k id : ℕ) (m : DeviceIds) → exists id (remove k m) ≡ (if k == id then false else exists id m)
unfolding exists remove
exists-remove k id m = ground (arith, find-erase {V = Unit {0}} k id m)
