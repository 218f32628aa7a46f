-- ===== src/Config/Release.antt =====
-- `free_configs` of src/config.c. The addresses behind the nodes (`sa`) are not freed there.
use socksprox.Address.{SockaddrNode}
use socksprox.Base.{◌≡◌, refl, ap, ◌∙◌, List, [], ◌∷◌, ◌++◌, append-nil, append_assoc}
use socksprox.Config.{Configs}
use socksprox.Firewall.{Blockaddr}

-- The nodes given to `free`, the first one first.
pub record Freed : Type 0 where
  pub sa_nodes : List SockaddrNode
  pub block_nodes : List Blockaddr

unfoldable pub free_sa : List SockaddrNode → Freed → Freed
free_sa [] f = f
free_sa (current ∷ next) f = free_sa next (record f { sa_nodes = f.sa_nodes ++ (current ∷ []) })

unfoldable pub free_blocks : List Blockaddr → Freed → Freed
free_blocks [] f = f
free_blocks (current ∷ next) f =
    free_blocks next (record f { block_nodes = f.block_nodes ++ (current ∷ []) })

-- `if(current) { free_sa(current); … = NULL; }`: the list behind it.
unfoldable pub release : List SockaddrNode → Freed → List SockaddrNode × Freed
release [] f = ([], f)
release (current ∷ next) f = ([], free_sa (current ∷ next) f)

unfoldable pub release_blocks : List Blockaddr → Freed → List Blockaddr × Freed
release_blocks [] f = ([], f)
release_blocks (current ∷ next) f = ([], free_blocks (current ∷ next) f)

unfoldable pub free_configs : Configs → Freed → Configs × Freed
free_configs c f =
    let (listen, f1) = release c.listen_head f in
    let (advertise, f2) = release c.bind_advertise f1 in
    let (bind, f3) = release c.bind_listen f2 in
    let (udpa_advertise, f4) = release c.udpa_advertise f3 in
    let (udpa, f5) = release c.udpa_listen f4 in
    let (blocks, f6) = release_blocks c.block_head f5 in
    (
      record c {
        listen_head = listen;
        bind_advertise = advertise;
        bind_listen = bind;
        udpa_advertise = udpa_advertise;
        udpa_listen = udpa;
        block_head = blocks;
      },
      f6,
    )

-- Nothing is freed yet.
abbrev pub none_freed : Freed
none_freed = record { sa_nodes = []; block_nodes = [] }

-- All lists are empty, the other fields stay.
abbrev pub cleared : Configs → Configs
cleared c = record c {
  listen_head = [];
  bind_advertise = [];
  bind_listen = [];
  udpa_advertise = [];
  udpa_listen = [];
  block_head = [];
}

-- All nodes, each once.
abbrev pub nodes_of : Configs → Freed
nodes_of c = record {
  sa_nodes =
      c.listen_head ++ (c.bind_advertise ++ (c.bind_listen ++ (c.udpa_advertise ++ c.udpa_listen)));
  block_nodes = c.block_head;
}

free_sa_lem :
    (xs : List SockaddrNode) (f : Freed) → free_sa xs f ≡ record f { sa_nodes = f.sa_nodes ++ xs }
unfolding free_sa
free_sa_lem [] f = rw append-nil refl
free_sa_lem (x ∷ xs) f = free_sa_lem xs _ ∙ rw append_assoc refl

free_blocks_lem :
    (xs : List Blockaddr) (f : Freed)
    → free_blocks xs f ≡ record f { block_nodes = f.block_nodes ++ xs }
unfolding free_blocks
free_blocks_lem [] f = rw append-nil refl
free_blocks_lem (x ∷ xs) f = free_blocks_lem xs _ ∙ rw append_assoc refl

release_lem :
    (xs : List SockaddrNode) (f : Freed)
    → release xs f ≡ ([], record f { sa_nodes = f.sa_nodes ++ xs })
unfolding release
release_lem [] f = rw append-nil refl
release_lem (x ∷ xs) f = ap (λ (t : Freed). ([], t)) (free_sa_lem (x ∷ xs) f)

release_blocks_lem :
    (xs : List Blockaddr) (f : Freed)
    → release_blocks xs f ≡ ([], record f { block_nodes = f.block_nodes ++ xs })
unfolding release_blocks
release_blocks_lem [] f = rw append-nil refl
release_blocks_lem (x ∷ xs) f = ap (λ (t : Freed). ([], t)) (free_blocks_lem (x ∷ xs) f)

free_configs_lem : (c : Configs) → free_configs c none_freed ≡ (cleared c, nodes_of c)
unfolding free_configs
free_configs_lem c = simp (release_lem, release_blocks_lem, append_assoc)

-- `free_configs` frees every node of the six lists exactly once, in order, leaves the lists empty
-- and the other fields as they are; a second call frees nothing more.
pub free_configs-twice :
    (c : Configs)
    → (free_configs c none_freed ≡ (cleared c, nodes_of c))
      × (free_configs (free_configs c none_freed).0 none_freed ≡ (cleared c, none_freed))
free_configs-twice c = (
  free_configs_lem c,
  ap (λ (t : Configs × Freed). free_configs t.0 none_freed) (free_configs_lem c)
      ∙ free_configs_lem (cleared c),
)
