-- ===== src/IfWorker/Handlers.antt =====
-- What each handler of NmWorkerIf (src/nmworkerif.cpp) keeps of the system.
use nmdaemon.Address.{Address, get_sock_addr}
use nmdaemon.Command.{NmCmd}
use nmdaemon.Exec.Keeps.{Keeps, keeps_rules, Keeps-pure, Keeps-lift, Keeps-test}
use nmdaemon.Exec.{Exec, pure, ◌>>=◌, ◌>>◌}
use nmdaemon.Group.{Group}
use nmdaemon.IfWorker.Addresses.{
  sockaddr_bytes, family_of, valid_mtu, get_main_if_addr, remove_if_addr, add_pair, add_if_addr,
  add_new, set_current, set_group, exec_cmd_ip_addr_set, add_group, exec_cmd_ip_addr_add,
  remove_group, exec_cmd_ip_addr_remove, exec_cmd_ip_addr_get, mtu_json, exec_cmd_mtu_get, set_mtu,
  exec_cmd_mtu_set, drop_current, exec_cmd_dhcp_enable,
}
use nmdaemon.IfWorker.Client.{disable_over, exec_cmd_dhcp_disable, exec_cmd_dhcp_get_status}
use nmdaemon.IfWorker.Execute.{rejected, handle}
use nmdaemon.IfWorker.Guard.{
  IsGuard, read-Keeps, call-Keeps, sleep-Keeps, is_enabled-Keeps, signal_client-Keeps,
  stop_client-Keeps, enable_dhcp-Keeps, get_main-Keeps, primary-Keeps,
}
use nmdaemon.IfWorker.{Ifaces, answer, named, with_name}
use nmdaemon.Json.{Json}
use nmdaemon.Keys.{json_param_if_name}
use nmdaemon.Fields.{text_field}
use nmdaemon.Platform.{Platform}
use nmdaemon.Prelude.{
  ℕ, ◌≡◌, arith, true, ltb, leb, ◌&&◌, ℤ, pos, negsuc, Option, none, some, Bool-cases, inl, inr,
}
use nmdaemon.Text.{Text}
use nmdaemon.Tool.Names.{is_valid_if_name}

module _ {K : Type 0} (w : Ifaces K) (os : Platform) (js : Json) (Inv : K → Type 0)
    (g : IsGuard w Inv) where
  open js use {Value}

  named-Keeps :
      (o : Option Text) (f : Text → Exec K Value)
      → ((name : Text) → is_valid_if_name name ≡ true → Keeps Inv (f name))
      → Keeps Inv (named js o f)
  unfolding named answer
  named-Keeps none f h = Keeps-pure _
  named-Keeps (some name) f h = Keeps-test (is_valid_if_name name) _ _ (h name) (λ e. Keeps-pure _)

  with_name-Keeps :
      (j : Value) (f : Text → Exec K Value)
      → ((name : Text) → is_valid_if_name name ≡ true → Keeps Inv (f name))
      → Keeps Inv (with_name js j f)
  unfolding with_name
  with_name-Keeps j f h = named-Keeps (text_field js json_param_if_name j) f h

  module _ (name : Text) (valid : is_valid_if_name name ≡ true) where
    remove-Keeps : (a : Option Address) → Keeps Inv (remove_if_addr w os name a)
    unfolding remove_if_addr
    remove-Keeps none = Keeps-lift _
    remove-Keeps (some a) =
        call-Keeps w Inv g (w.siocdifaddr name (sockaddr_bytes (get_sock_addr a)))
          (λ k i. g.remove name _ k valid i)

    add_pair-Keeps : (a m : Option Address) → Keeps Inv (add_pair w os name a m)
    unfolding add_pair
    add_pair-Keeps (some a) (some m) =
        call-Keeps w Inv g
          (w.siocaifaddr name (sockaddr_bytes (get_sock_addr a)) (sockaddr_bytes (get_sock_addr m)))
          (λ k i. g.add name _ _ k valid i)
    add_pair-Keeps none m = Keeps-lift _
    add_pair-Keeps (some a) none = Keeps-lift _

    add_new-Keeps : (x : Group) → Keeps Inv (add_new w os js name x)
    unfolding add_new add_if_addr answer
    add_new-Keeps x = search (keeps_rules, add_pair-Keeps) depth 40 fits 4000

    set_current-Keeps : (x : Group) (a : Option Address) → Keeps Inv (set_current w os js name x a)
    unfolding set_current answer
    set_current-Keeps x none = add_new-Keeps x
    set_current-Keeps x (some a) =
        let stop = stop_client-Keeps w Inv g name valid in
        search (keeps_rules, stop, remove-Keeps, add_new-Keeps) depth 40 fits 4000

    family-Keeps : (a : Option Address) → Keeps Inv (family_of {K = K} a)
    unfolding family_of
    family-Keeps none = Keeps-lift _
    family-Keeps (some a) = Keeps-pure _

    set_group-Keeps : (x : Option Group) → Keeps Inv (set_group w os js name x)
    unfolding set_group answer
    set_group-Keeps none = Keeps-pure _
    set_group-Keeps (some x) =
        let main = get_main-Keeps w Inv g name valid os in
        search (keeps_rules, family-Keeps, main, set_current-Keeps) depth 40 fits 4000

    add_group-Keeps : (x : Option Group) → Keeps Inv (add_group w os js name x)
    unfolding add_group answer
    add_group-Keeps none = Keeps-pure _
    add_group-Keeps (some x) = add_new-Keeps x

    remove_group-Keeps : (x : Option Group) → Keeps Inv (remove_group w os js name x)
    unfolding remove_group answer
    remove_group-Keeps none = Keeps-pure _
    remove_group-Keeps (some x) = search (keeps_rules, remove-Keeps) depth 40 fits 4000

    mtu_json-Keeps : (n : Option ℤ) → Keeps Inv (mtu_json w os js n)
    unfolding mtu_json answer
    mtu_json-Keeps none = Keeps-pure _
    mtu_json-Keeps (some n) = Keeps-pure _

    mtu_call : (n : ℕ) → ltb 0 n && leb n 9192 ≡ true → Keeps Inv (set_mtu w os js name (some n))
    unfolding set_mtu answer
    mtu_call n e =
        let set =
          call-Keeps w Inv g (w.siocsifmtu name (pos n))
            (λ k i. g.set_mtu name n k valid (ground (arith, e)) (ground (arith, e)) i) in
        search (keeps_rules) depth 40 fits 4000

    set_mtu-Keeps : (n : Option ℤ) → Keeps Inv (set_mtu w os js name (valid_mtu n))
    unfolding set_mtu answer valid_mtu
    set_mtu-Keeps none = Keeps-pure _
    set_mtu-Keeps (some (negsuc n)) = Keeps-pure _
    set_mtu-Keeps (some (pos n)) = elim (Bool-cases (ltb 0 n && leb n 9192)) [
      | inl e ↦ rw e (mtu_call n e)
      | inr e ↦ rw e (Keeps-pure _)
    ]

    drop_current-Keeps : (a : Option Address) → Keeps Inv (drop_current w os js name a)
    unfolding drop_current
    drop_current-Keeps none = Keeps-pure _
    drop_current-Keeps (some a) = remove-Keeps (some a)

    enable-Keeps : Keeps Inv (
        get_main_if_addr w os name nmdaemon.Platform.inet >>= λ current.
        drop_current w os js name current
        >> (nmdaemon.IfWorker.Client.enable_dhcp w name >>= λ b. answer js b))
    unfolding answer
    enable-Keeps =
        let main = get_main-Keeps w Inv g name valid os in
        let enable = enable_dhcp-Keeps w Inv g name valid in
        search (keeps_rules, main, drop_current-Keeps) depth 40 fits 4000

    disable-Keeps : Keeps Inv (disable_over w js name)
    unfolding disable_over answer
    disable-Keeps =
        let e = is_enabled-Keeps w Inv g name valid in
        let s = sleep-Keeps w Inv g in
        let signal = signal_client-Keeps w Inv g name valid in
        search (keeps_rules, signal) depth 40 fits 4000

    get_status-Keeps : Keeps Inv (
        nmdaemon.IfWorker.Client.is_enabled w name >>= λ b.
        pure (nmdaemon.IfWorker.Client.status_json w js b))
    get_status-Keeps =
        let e = is_enabled-Keeps w Inv g name valid in search (keeps_rules) depth 40 fits 4000

  -- What the system keeps on sleeping, on signals to a DHCP client of an interface, and on calls for
  -- an interface with a valid name, an MTU from 1 to 9192 where one is set, each handler keeps,
  -- whatever the request.
  pub handle-Keeps : (c : NmCmd) (j : Value) → Keeps Inv (handle w os js c j)
  unfolding handle rejected
  handle-Keeps NmCmd.ip_addr_set j =
      unfold exec_cmd_ip_addr_set in with_name-Keeps j _ (λ n v. set_group-Keeps n v _)
  handle-Keeps NmCmd.ip4_addr_get j =
      unfold exec_cmd_ip_addr_get answer in
      with_name-Keeps j _
        (λ n v. let p = primary-Keeps w Inv g n v os in search (keeps_rules) depth 40 fits 4000)
  handle-Keeps NmCmd.ip_addr_add j =
      unfold exec_cmd_ip_addr_add in with_name-Keeps j _ (λ n v. add_group-Keeps n v _)
  handle-Keeps NmCmd.ip_addr_remove j =
      unfold exec_cmd_ip_addr_remove in with_name-Keeps j _ (λ n v. remove_group-Keeps n v _)
  handle-Keeps NmCmd.mtu_get j =
      unfold exec_cmd_mtu_get in
      with_name-Keeps j _ (λ n v.
        let r = read-Keeps w Inv g (w.siocgifmtu n) in
        search (keeps_rules, mtu_json-Keeps) depth 40 fits 4000)
  handle-Keeps NmCmd.mtu_set j =
      unfold exec_cmd_mtu_set in with_name-Keeps j _ (λ n v. set_mtu-Keeps n v _)
  handle-Keeps NmCmd.ip4_dhcp_enable j =
      unfold exec_cmd_dhcp_enable in with_name-Keeps j _ (λ n v. enable-Keeps n v)
  handle-Keeps NmCmd.ip4_dhcp_disable j =
      unfold exec_cmd_dhcp_disable in with_name-Keeps j _ (λ n v. disable-Keeps n v)
  handle-Keeps NmCmd.ip4_get_dhcp_status j =
      unfold exec_cmd_dhcp_get_status in with_name-Keeps j _ (λ n v. get_status-Keeps n v)
  handle-Keeps _ j = Keeps-pure _
