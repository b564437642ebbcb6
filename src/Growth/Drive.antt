-- ===== src/Growth/Drive.antt =====
-- Growth of the history under Fsutil, Snapshot and Gadget.
use teslausb_neo.Base.{String, ◌<>◌, Bool, List, [], ◌∷◌, arith}
use teslausb_neo.Base.Int.{ℤ}
use teslausb_neo.Host.{remove, glob, stat, Host}
use teslausb_neo.Host.Fallible.{Result, ok, err}
use teslausb_neo.Growth.Adds.{Adds, bind-Adds, wrap-Adds}
use teslausb_neo.Fsutil
use teslausb_neo.Snapshot.Release
use teslausb_neo.Snapshot.Create
use teslausb_neo.Gadget.Tree
use teslausb_neo.Gadget.Tree.{Gadget}
use teslausb_neo.Gadget.Units
use teslausb_neo.Gadget.Bind

module _ (H : Host) where
  pub unmount-Adds : (path : String) → Adds (Fsutil.unmount H path)
  unfolding Fsutil.unmount Fsutil.is_mounted
  unmount-Adds path = record { less = λ t. ground arith }

  pub mount-Adds : (d p f : String) (ro : Bool) → Adds (Fsutil.mount H d p f ro)
  unfolding Fsutil.mount Fsutil.is_mounted
  mount-Adds d p f ro = record { less = λ t. ground (arith, (unmount-Adds p).less t) }

  pub run_fsck-Adds : (d : String) → Adds (Fsutil.run_fsck H d)
  unfolding Fsutil.run_fsck
  run_fsck-Adds d = record { less = λ t. ground arith }

  pub release-Adds : (s : Release.Snapshot) → Adds (Release.release H s)
  unfolding Release.release
  release-Adds s = record { less = λ t. ground arith }

  pub snapshot_mount-Adds : (p : String) (s : Release.Snapshot) → Adds (Release.mount H p s)
  unfolding Release.mount
  snapshot_mount-Adds p s = record { less = λ t. ground arith }

  build-Adds : (id : String) (s : Release.Snapshot) → Adds (Create.build H id s)
  unfolding Create.build
  build-Adds id s = record { less = λ t. ground arith }

  hot_add-Adds : Adds (Create.hot_add H)
  unfolding Create.hot_add
  hot_add-Adds = record { less = λ t. ground arith }

  built_on-Adds : (s : Release.Snapshot) (r : Result String) → Adds (Create.built_on H s r)
  unfolding Create.built_on Create.settle
  built_on-Adds s (ok id) = record {
    less = λ t.
        let s' = record s { zram_device = "/dev/zram" <> id } in
        ground
          (arith, (build-Adds id s').less t, (release-Adds s').less (Create.build H id s' t).1);
  }
  built_on-Adds s (err m) = record { less = λ t. ground (arith, (release-Adds s).less t) }

  pub create-Adds : (origin : String) → Adds (Create.create H origin)
  unfolding Create.create Create.create_with_cow_size Release.cleanup
  create-Adds origin = record {
    less = λ t.
        let u = (Release.cleanup H t).1 in
        let r = Create.hot_add H u in
        ground (
          arith,
          hot_add-Adds.less u,
          (built_on-Adds (Create.fresh H origin Create.default_cow_size_mb) r.0).less r.1,
        );
  }

  link_function-Adds : (gp : String) → Adds (Bind.link_function H gp)
  unfolding Bind.link_function
  link_function-Adds gp = record { less = λ t. ground arith }

  find_udc-Adds : Adds (Bind.find_udc H)
  unfolding Bind.find_udc
  find_udc-Adds = record { less = λ t. ground arith }

  current_udc-Adds : (gp : String) → Adds (Bind.current_udc H gp)
  unfolding Bind.current_udc
  current_udc-Adds gp = record { less = λ t. ground arith }

  bind_udc-Adds : (gp udc cur : String) (g : Gadget) → Adds (Bind.bind_udc H gp udc cur g)
  unfolding Bind.bind_udc Bind.write_udc Tree.clear_udc
  bind_udc-Adds gp udc cur g = record { less = λ t. ground arith }

  pub activate-Adds : (g : Gadget) → Adds (Bind.activate H g)
  unfolding Bind.activate
  activate-Adds g =
      let gp = Tree.gadget_path H g in
      bind-Adds (link_function-Adds gp) (λ _.
        bind-Adds (wrap-Adds "find UDC" find_udc-Adds)
          (λ udc. bind-Adds (current_udc-Adds gp) (λ cur. bind_udc-Adds gp udc cur g)))

  pub deactivate-Adds : (g : Gadget) → Adds (Bind.deactivate H g)
  unfolding Bind.deactivate
  deactivate-Adds g = record { less = λ t. ground arith }

  remove_each-Adds : (ps : List String) → Adds (Tree.remove_each H ps)
  unfolding Tree.remove_each
  remove_each-Adds [] = record { less = λ t. omega arith }
  remove_each-Adds (p ∷ ps) = record {
    less = λ t. ground (arith, (remove_each-Adds ps).less (remove p ∷ t));
  }

  remove_matches-Adds : (pattern : String) → Adds (Tree.remove_matches H pattern)
  unfolding Tree.remove_matches
  remove_matches-Adds pattern = record {
    less = λ t.
        ground
          (arith, (remove_each-Adds (H.answer t (glob pattern)).names).less (glob pattern ∷ t));
  }

  remove_configfs_tree-Adds : (gp : String) → Adds (Tree.remove_configfs_tree H gp)
  unfolding Tree.remove_configfs_tree
  remove_configfs_tree-Adds gp =
      bind-Adds (remove_matches-Adds _)
        (λ _. bind-Adds (remove_matches-Adds _) (λ _. remove_each-Adds (Tree.dirs_to_remove H gp)))

  clear_udc-Adds : (gp : String) → Adds (Tree.clear_udc H gp)
  unfolding Tree.clear_udc
  clear_udc-Adds gp = record { less = λ t. ground arith }

  teardown-Adds : (g : Gadget) → Adds (Tree.teardown_existing H g)
  unfolding Tree.teardown_existing
  teardown-Adds g = record {
    less = λ t.
        let gp = Tree.gadget_path H g in
        let u = (Tree.clear_udc H gp (stat gp ∷ t)).1 in
        ground
          (arith, (clear_udc-Adds gp).less (stat gp ∷ t), (remove_configfs_tree-Adds gp).less u);
  }

  write-Adds : (path value : String) → Adds (Tree.write H path value)
  write-Adds path value = record { less = λ t. ground arith }

  make-Adds : (path : String) → Adds (Tree.make H path)
  make-Adds path = record { less = λ t. ground arith }

  write_each-Adds :
      (at what : String) (vs : List (String × String)) → Adds (Tree.write_each H at what vs)
  unfolding Tree.write_each
  write_each-Adds at what [] = record { less = λ t. omega arith }
  write_each-Adds at what ((name, value) ∷ rest) =
      bind-Adds (wrap-Adds _ (write-Adds _ value)) (λ _. write_each-Adds at what rest)

  configure_device-Adds : (gp : String) → Adds (Tree.configure_device H gp)
  unfolding Tree.configure_device
  configure_device-Adds gp =
      let strings_dir = Tree.under H gp ("strings" ∷ "0x409" ∷ []) in
      bind-Adds (wrap-Adds "create gadget dir" (make-Adds gp)) (λ _.
        bind-Adds (write_each-Adds gp "write " (Tree.descriptors H)) (λ _.
          bind-Adds (wrap-Adds "create strings dir" (make-Adds strings_dir))
            (λ _. write_each-Adds strings_dir "write string " (Tree.strings_map H))))

  configure_functions-Adds : (gp : String) → Adds (Tree.configure_functions H gp)
  unfolding Tree.configure_functions
  configure_functions-Adds gp = record { less = λ t. ground arith }

  pub configure-Adds : (g : Gadget) → Adds (Tree.configure H g)
  unfolding Tree.configure
  configure-Adds g = bind-Adds (teardown-Adds g) (λ _.
      bind-Adds (configure_device-Adds (Tree.gadget_path H g))
        (λ _. configure_functions-Adds (Tree.gadget_path H g)))

  pub add_lun-Adds : (d i : String) (g : Gadget) → Adds (Units.add_lun H d i g)
  unfolding Units.add_lun
  add_lun-Adds d i g = record { less = λ t. ground arith }

  pub set_nofua-Adds : (i : ℤ) (b : Bool) (g : Gadget) → Adds (Units.set_nofua H i b g)
  unfolding Units.set_nofua
  set_nofua-Adds i b g = record { less = λ t. ground arith }
