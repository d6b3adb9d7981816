-- ===== src/TcpServer/Delivery/Keeps.antt =====
-- A client of the server of projects/networking/tcp-suite keeps its slot while others come and go.
use c_systems_programming.Common.{
  ℕ, zero, suc, ◌+◌, ◌≤◌, ◌≡◌, ◌≢◌, ap, ◌∙◌, List, Bool, true, false, Option, some, none, arith,
  if_elim,
}
use c_systems_programming.TcpServer.{
  Server, max_clients, is_some, Call, store_client, ReadAnswer, received, closed, failed, forget,
  read_client, read_slot, read_all,
}
use c_systems_programming.TcpServer.Delivery.{IsConnected}

pub store_client-IsConnected :
    (s : Server) (i c client rounds lo : ℕ)
    → client ≢ c
    → 2 ≤ lo
    → lo + rounds ≤ max_clients + 1
    → IsConnected s i c
    → IsConnected (store_client s client rounds lo) i c
unfolding store_client
store_client-IsConnected s i c client zero lo ne h k v = v
store_client-IsConnected s i c client (suc rounds) lo ne h k v =
    if_elim (λ (t : Server). IsConnected t i c) (is_some (s.fd lo))
      (λ e. store_client-IsConnected s i c client rounds (lo + 1) ne (omega arith) (omega arith) v)
      (λ e.
        let apart : lo ≢ i = λ q. cc (ap is_some (ap s.fd q), ap is_some v.holds, e) in
        record {
          covered = record {
            nfds_min = ground (arith, v.covered.nfds_min);
            nfds_max = ground (arith, v.covered.nfds_max);
            inside = λ j nj. ground (arith, v.covered.inside j);
          };
          slot = v.slot;
          holds = ground (arith, apart, v.holds);
          alone = λ j hj ej. ground (arith, ne, v.alone j);
        })

forget-IsConnected :
    (s : Server) (i c j : ℕ) → j ≢ i → IsConnected s i c → IsConnected (forget s j) i c
unfolding forget
forget-IsConnected s i c j ne v = record {
  covered = record {
    nfds_min = v.covered.nfds_min;
    nfds_max = v.covered.nfds_max;
    inside = λ k nk. ground (arith, v.covered.inside k);
  };
  slot = v.slot;
  holds = ground (arith, ne, v.holds);
  alone = λ k hk ek. ground (arith, v.alone k);
}

abbrev pub is_received : ReadAnswer → Bool
is_received (received text) = true
is_received closed = false
is_received failed = false

pub read_slot-IsConnected :
    (s : Server) (i c j : ℕ) (o : Option ℕ) (a : ReadAnswer)
    → (j ≡ i → is_received a ≡ true)
    → IsConnected s i c
    → IsConnected (read_slot s j o a).0 i c
unfolding read_slot read_client
read_slot-IsConnected s i c j none a h v = v
read_slot-IsConnected s i c j (some d) (received text) h v =
    if_elim (λ (r : Server × List Call). IsConnected r.0 i c) (s.ready j) (λ e. v) (λ e. v)
read_slot-IsConnected s i c j (some d) closed h v =
    if_elim (λ (r : Server × List Call). IsConnected r.0 i c) (s.ready j)
      (λ e. forget-IsConnected s i c j (λ q. cc (h q)) v) (λ e. v)
read_slot-IsConnected s i c j (some d) failed h v =
    if_elim (λ (r : Server × List Call). IsConnected r.0 i c) (s.ready j)
      (λ e. forget-IsConnected s i c j (λ q. cc (h q)) v) (λ e. v)

pub read_all-IsConnected :
    (answers : ℕ → ReadAnswer) (i c rounds lo : ℕ) (s : Server)
    → is_received (answers i) ≡ true
    → IsConnected s i c
    → IsConnected (read_all answers rounds lo s).0 i c
unfolding read_all
read_all-IsConnected answers i c zero lo s h v = v
read_all-IsConnected answers i c (suc rounds) lo s h v =
    read_all-IsConnected answers i c rounds (lo + 1) (read_slot s lo (s.fd lo) (answers lo)).0 h (
      read_slot-IsConnected s i c lo (s.fd lo) (answers lo)
        (λ q. ap (λ k. is_received (answers k)) q ∙ h) v)
