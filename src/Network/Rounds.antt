-- ===== src/Network/Rounds.antt =====
-- One round of the loop over the nodes of exordos_core/network/service.py: the address it gives out.
use mathlib.Core.List.{append-nil}
use exordos_core.Base.{
  ℕ, ◌+◌, ◌≤◌, ◌≡◌, refl, ap, sym, ◌∙◌, ◌==◌, true, none, some, List, [], ◌∷◌, ◌++◌, arith,
  if◌then◌else◌,
}
use exordos_core.Base.Result.{ok}
use exordos_core.Ipam
use exordos_core.Ipam.{Ipam, IpamError, Subnet, Library}
use exordos_core.Ipam.State.{IsValid, allocate_ip-IsValid}
use exordos_core.Ipam.View.{
  free_at, free_at-allocate, free_at-deallocate, known-allocate, allocate_ip_total,
}
use exordos_core.Network.Port.{allocate_port-eq-ok, new_port, allocate_node-made}
use exordos_core.Network.{
  SubnetMap, NetPort, Insert, inserted, value_error, other_error, Node, State, Env, find_subnet,
  append_port, allocate_port, release_port, insert_port, handle_node, allocate_node,
}
use exordos_core.Network.Stored.{
  kept, owners, owners-append, IsUntargeted, has, uses, uses-append, IsSound,
}

module _ (env : Env) where
  -- A round that gave out the address: the state is sound, no other address of the subnet left the
  -- free ones, and there is one more port if it was inserted.
  pub record IsRound (subnet : Subnet) (ipam : Ipam) (ip : ℕ) (more : List ℕ) (s t : State)
      : Type 0 where
    pub sound : IsSound env t
    pub same_map : t.subnet_map ≡ s.subnet_map
    pub rest_free :
        (a : ℕ)
        → free_at (env.library.identity subnet) a sound.ipam ≡ (
            if a == ip
            then free_at (env.library.identity subnet) a sound.ipam
            else free_at (env.library.identity subnet) a ipam)
    pub new_owners : owners t.stored ≡ owners s.stored ++ more

  -- What is left after a successful allocation, with the address neither stored nor free.
  module _ (subnet : Subnet) (ipam : Ipam) (v : IsValid ipam) (ip : ℕ)
      (e : (Ipam.allocate_ip env.library subnet none ipam).0 ≡ ok ip) where
    abbrev after : Ipam
    after = (Ipam.allocate_ip env.library subnet none ipam).1

    once-store :
        (stored : List NetPort) (port : NetPort)
        → port.subnet ≡ subnet
        → port.ipv4 ≡ ip
        → ((k a : ℕ) → uses env k a stored + (if free_at k a ipam then 1 else 0) ≤ 1)
        → (k a : ℕ) → uses env k a (stored ++ port ∷ []) + (if free_at k a after then 1 else 0) ≤ 1
    unfolding has
    once-store stored port same addr once k a =
        let (was, left) = free_at-allocate env.library subnet ipam v ip e in
        ground (
          arith,
          left k a,
          once k a,
          uses-append env k a stored port,
          ap env.library.identity same,
          addr,
          was,
        )

    once-leak :
        (stored : List NetPort)
        → ((k a : ℕ) → uses env k a stored + (if free_at k a ipam then 1 else 0) ≤ 1)
        → (k a : ℕ) → uses env k a stored + (if free_at k a after then 1 else 0) ≤ 1
    once-leak stored once k a =
        let (was, left) = free_at-allocate env.library subnet ipam v ip e in
        ground (arith, left k a, once k a)

    after_lem :
        (a : ℕ)
        → free_at (env.library.identity subnet) a after ≡ (
            if a == ip
            then free_at (env.library.identity subnet) a after
            else free_at (env.library.identity subnet) a ipam)
    after_lem a =
        let (was, left) = free_at-allocate env.library subnet ipam v ip e in
        ground (arith, left (env.library.identity subnet) a)

    abbrev released : Ipam
    released = (Ipam.deallocate_ip env.library subnet ip after).1

    -- The address of a port that could not be inserted is free again.
    release_lem :
        IsValid released
        × ((Ipam.deallocate_ip env.library subnet ip after).0 ≡ ok tt)
        × ((k a : ℕ) → free_at k a released ≡ free_at k a ipam)
    release_lem =
        let (was, left) = free_at-allocate env.library subnet ipam v ip e in
        let (p, known) = known-allocate env.library subnet ipam v ip e in
        let key = env.library.identity subnet in
        let (ok_pools, done, back) =
          free_at-deallocate env.library subnet after
            (allocate_ip-IsValid env.library subnet ipam none v) ip p known
            (ground (arith, left key ip)) in
        (ok_pools, done, λ k a. ground (arith, left k a, back k a, was))

    release_port_lem :
        (port : NetPort) (s : State)
        → port.subnet ≡ subnet
        → port.ipv4 ≡ ip
        → s.port ≡ some port
        → release_port env after s ≡ ok (record s { ipam = some released })
    unfolding release_port
    release_port_lem port s same addr bound = ground (arith, bound, same, addr, release_lem.1)

    insert_port-IsRound :
        (how : Insert) (port : NetPort) (s : State)
        → port.subnet ≡ subnet
        → port.ipv4 ≡ ip
        → s.ipam ≡ some after
        → s.port ≡ some port
        → ((k a : ℕ) → uses env k a s.stored + (if free_at k a ipam then 1 else 0) ≤ 1)
        → (t : State) × (insert_port env how port after s ≡ ok t)
          × IsRound subnet ipam ip (kept how port.owner) s t
    unfolding insert_port
    insert_port-IsRound inserted port s same addr made bound once = (
      record s { stored = s.stored ++ port ∷ [] },
      refl,
      record {
        sound = record {
          ipam = after;
          made = made;
          valid = allocate_ip-IsValid env.library subnet ipam none v;
          once = once-store s.stored port same addr once;
        };
        same_map = refl;
        rest_free = λ a. after_lem a;
        new_owners = owners-append s.stored port;
      },
    )
    insert_port-IsRound value_error port s same addr made bound once = (
      s,
      refl,
      record {
        sound = record {
          ipam = after;
          made = made;
          valid = allocate_ip-IsValid env.library subnet ipam none v;
          once = once-leak s.stored once;
        };
        same_map = refl;
        rest_free = λ a. after_lem a;
        new_owners = sym (append-nil (owners s.stored));
      },
    )
    insert_port-IsRound other_error port s same addr made bound once =
        let (ok_pools, done, back) = release_lem in
        (
          record s { ipam = some released },
          release_port_lem port s same addr bound,
          record {
            sound = record {
              ipam = released;
              made = refl;
              valid = ok_pools;
              once = λ k a. rw back (once k a);
            };
            same_map = refl;
            rest_free = λ a. ground (arith, back (env.library.identity subnet) a);
            new_owners = sym (append-nil (owners s.stored));
          },
        )

  find_subnet-append_port :
      (port : NetPort) (m : SubnetMap) → find_subnet (append_port env port m) ≡ find_subnet m
  unfolding find_subnet append_port
  find_subnet-append_port port [] = refl
  find_subnet-append_port port ((s, ports) ∷ rest) =
      ground (arith, find_subnet-append_port port rest)

  -- One round with a suitable subnet that has a free address.
  pub matched-IsRound :
      (node : Node) (s : State) (subnet : Subnet) (a : ℕ) (v : IsSound env s)
      → IsUntargeted node
      → find_subnet s.subnet_map ≡ some subnet
      → free_at (env.library.identity subnet) a v.ipam ≡ true
      → (ip : ℕ) × (t : State) × (allocate_node env node s ≡ ok t)
        × (find_subnet t.subnet_map ≡ some subnet)
        × IsRound subnet v.ipam ip
            (kept node.insert node.uuid)
            (record s { subnet_map = t.subnet_map })
            t
  unfolding handle_node
  matched-IsRound node s subnet a v un found free_a =
      let (ip, e) = allocate_ip_total env.library subnet v.ipam v.valid a free_a in
      let port = new_port node subnet ip in
      let left = (Ipam.allocate_ip env.library subnet none v.ipam).1 in
      let port_lem : allocate_port env node v.ipam s.subnet_map ≡ (ok port, left) =
        ground
          (arith, un, allocate_port-eq-ok env node v.ipam s.subnet_map subnet ip found (rw un e)) in
      let (t, done, r) =
        insert_port-IsRound subnet v.ipam v.valid ip e node.insert port
          (record s {
            ipam = some left;
            subnet_map = append_port env port s.subnet_map;
            port = some port;
          })
          refl refl refl refl v.once in
      (
        ip,
        t,
        allocate_node-made env node s v.ipam left (ok port) v.made port_lem ∙ done,
        ap find_subnet r.same_map ∙ find_subnet-append_port port s.subnet_map ∙ found,
        record {
          sound = r.sound;
          same_map = refl;
          rest_free = r.rest_free;
          new_owners = r.new_owners;
        },
      )
