-- ===== src/Health/Laws.antt =====
-- The health of the server pod: which pod is chosen, and when it counts as ready.
use workbench_operator.Base.{
  ◌≤◌, true, false, Option, none, some, List, [], ◌∷◌, ◌≡◌, refl, ◌↔◌, ◌≢◌, string_eq, bool_eq,
  int_eq, arith, All, ltb, Bool-cases, inl, inr,
}
use mathlib.Core.List.{Memᴰ}
use workbench_operator.Kube.{Time, Pod, ContainerStatus}
use workbench_operator.Workbench.{Workbench, ServerPodHealth, ready}
use workbench_operator.Health.{
  latest_from, latest_pod, find_status, determine_container_health, determine_server_pod_health,
  set_server_pod_health, status_eq,
}

-- No pod of the list was created after `p`.
abbrev NoneAfter : Pod → List Pod → Type 0
NoneAfter p = All (λ q. q.creation_timestamp ≤ p.creation_timestamp)

skip_second : {p l q : Pod} {ps : List Pod} → Memᴰ p (l ∷ ps) → Memᴰ p (l ∷ q ∷ ps)
skip_second (Memᴰ.head e) = Memᴰ.head e
skip_second (Memᴰ.tail m) = Memᴰ.tail (Memᴰ.tail m)

abbrev Latest : List Pod → Option Pod → Type 0
Latest pods chosen = (p : Pod) × (chosen ≡ some p) × Memᴰ p pods × NoneAfter p pods

latest_from-Latest : (l : Pod) (ps : List Pod) → Latest (l ∷ ps) (latest_from (some l) ps)
unfolding latest_from
latest_from-Latest l [] = (l, refl, Memᴰ.head refl, (omega arith, tt))
latest_from-Latest l (q ∷ ps) = elim (Bool-cases (ltb l.creation_timestamp q.creation_timestamp)) [
  | inl later ↦
      let (p, e, m, (a, rest)) = latest_from-Latest q ps in
      rw later (p, e, Memᴰ.tail m, (ground arith, (a, rest)))
  | inr sooner ↦
      let (p, e, m, (a, rest)) = latest_from-Latest l ps in
      rw sooner (p, e, skip_second m, (a, (ground arith, rest)))
]

-- Of a list with a pod in it one is chosen, which is in the list, and no pod of the list was created
-- after it.
latest_pod_lem : (q : Pod) (ps : List Pod) → Latest (q ∷ ps) (latest_pod (q ∷ ps))
unfolding latest_pod
latest_pod_lem q ps = latest_from-Latest q ps

-- A health that says ready comes from a server container that is ready, behind a ready sidecar.
pub determine_server_pod_health-is_ready :
    (now : Time) (init server : ContainerStatus)
    → ((determine_server_pod_health now init server).is_ready ≡ true)
      ↔ ((init.ready ≡ true) × (server.ready ≡ true))
unfolding determine_server_pod_health
determine_server_pod_health-is_ready now init server = (λ e. ground arith, λ e. ground arith)

-- A container with the status Ready is ready and running, and neither waiting nor terminated.
determine_container_health-ready :
    (now : Time) (c : ContainerStatus)
    → (determine_container_health now c).status ≡ ready
    → (c.ready ≡ true)
      × (c.state.running ≢ none)
      × (c.state.waiting ≡ none)
      × (c.state.terminated ≡ none)
unfolding determine_container_health
determine_container_health-ready now c e = ground arith

-- What the pods must show for the apps to be started: the latest pod is not being deleted, and both
-- of its containers are there and ready.
pub record IsServing (p : Pod) : Type 0 where
  pub alive : p.deletion_timestamp ≡ none
  pub sidecar : ContainerStatus
  pub sidecar_found : find_status "xpra-server-bind" p.init_container_statuses ≡ some sidecar
  pub sidecar_ready : sidecar.ready ≡ true
  pub server : ContainerStatus
  pub server_found : find_status "xpra-server" p.container_statuses ≡ some server
  pub server_ready : server.ready ≡ true

-- After the update the workbench has the health that was given and its apps' statuses as they were;
-- the result is false exactly where it had that health already; and a second update with the same
-- health changes nothing.
set_server_pod_health_lem :
    (wb : Workbench) (h : ServerPodHealth)
    → let (wb', changed) = set_server_pod_health wb h in
      (wb'.status.server_deployment.server_pod ≡ some h)
      × ((changed ≡ false) ↔ (wb.status.server_deployment.server_pod ≡ some h))
      × (wb'.status.apps ≡ wb.status.apps)
      × (set_server_pod_health wb' h ≡ (wb', false))
unfolding set_server_pod_health
set_server_pod_health_lem wb h =
    (ground arith, (λ e. ground arith, λ e. ground arith), ground arith, ground arith)
