-- ===== src/CacheServer/Stored.antt =====
-- pkg/controllers/cache_server.go: what storing a binary leaves on the disk.
use infrakube_multicluster.Prelude.{
  ℕ, String, Bool, true, false, ◌||◌, ◌==◌, ◌⧺◌, trim_prefix, if◌then◌else◌, Option, none, some,
  ◌≡◌, ◌≢◌, ◌⊎◌, inl, inr, refl, sym, ap, ◌∙◌, arith,
}
use infrakube_multicluster.Exec.{Go, returns, panics, Exec, pure, call, ◌>>=◌}
use infrakube_multicluster.Exec.Ensures.{
  Ensures, Any, Ensures-pure, Ensures-bind, Ensures-if, keeps_call, keeps_asks,
}
use infrakube_multicluster.CacheServer.{
  Disk, DiskError, not_exist, disk_error, Opened, contents, cut, open_failed, Response, http_error,
  internal_error, created, served, after_copy, after_create, after_mkdir, store_binary,
  serve_binary, Request, handle_binary, bin_path_of, dir_of,
}

-- What an open shows of the file's content, an error of the disk nothing.
abbrev pub Shows : Opened → Option String → Type 0
Shows (contents body) file = file ≡ some body
Shows (cut part) file = (rest : String) × (file ≡ some (part ⧺ rest))
Shows (open_failed not_exist) file = file ≡ none
Shows (open_failed disk_error) file = Unit

-- What a call without an error leaves.
abbrev pub Leaves : Option DiskError → Option String → Option String → Type 0
Leaves none file file' = file' ≡ file
Leaves (some e) file file' = Unit

module _ {W : Type 0} (d : Disk W) (file : String → W → Option String) where
  -- What the documentation of os says of the files, no other program writing them. Directories are no
  -- files here.
  pub record IsDisk : Type 0 where
    pub opened : (path : String) (w : W) → Shows (d.open_file path w) (file path w)
    pub copied :
        (path body : String) (w : W)
        → Leaves (d.copy_to path body w).0 (some body) (file path (d.copy_to path body w).1)
    pub mode : (path at : String) (w : W) → file at (d.chmod path w).1 ≡ file at w
    pub directories : (path at : String) (w : W) → file at (d.mkdir_all path w).1 ≡ file at w
    pub create-others :
        (path at : String) (w : W) → at ≢ path → file at (d.create_file path w).1 ≡ file at w
    pub copy-others :
        (path body at : String) (w : W) → at ≢ path → file at (d.copy_to path body w).1 ≡ file at w
    pub remove-others :
        (path at : String) (w : W) → at ≢ path → file at (d.remove_file path w).1 ≡ file at w

  module _ (cache_dir : String) (disk : IsDisk) where
    -- How the store ends: with the body in the file, or with the status of an error.
    abbrev Ends : (path body : String) → Go Response → W → Type 0
    Ends path body res w =
        ((res ≡ returns created) × (file path w ≡ some body))
        ⊎ ((r : Response) × (res ≡ returns r) × (r.status ≢ 201))

    copy-Ends :
        (path body : String) (res : Option DiskError) (w : W)
        → Leaves res (some body) (file path w)
        → let (end, w') = after_copy d cache_dir path res w in Ends path body end w'
    unfolding ◌>>=◌
    copy-Ends path body none w h = inl (refl, disk.mode path path w ∙ h)
    copy-Ends path body (some e) w h =
        inr (http_error "write error" 500, refl, λ n. omega (arith, n))

    create-Ends :
        (path body : String) (res : Option DiskError) (w : W)
        → let (end, w') = after_create d cache_dir path body res w in Ends path body end w'
    unfolding ◌>>=◌
    create-Ends path body none w =
        copy-Ends path body (d.copy_to path body w).0 (d.copy_to path body w).1
          (disk.copied path body w)
    create-Ends path body (some e) w = inr (internal_error, refl, λ n. omega (arith, n))

    mkdir-Ends :
        (path body : String) (res : Option DiskError) (w : W)
        → let (end, w') = after_mkdir d cache_dir path body res w in Ends path body end w'
    unfolding ◌>>=◌
    mkdir-Ends path body none w =
        create-Ends path body (d.create_file path w).0 (d.create_file path w).1
    mkdir-Ends path body (some e) w = inr (internal_error, refl, λ n. omega (arith, n))

    store-Ends :
        (path body : String) (w : W)
        → let (end, w') = store_binary d cache_dir path body w in Ends path body end w'
    unfolding store_binary ◌>>=◌
    store-Ends path body w =
        mkdir-Ends path body (d.mkdir_all (dir_of path) w).0 (d.mkdir_all (dir_of path) w).1

    -- What a request for a stored body is answered with, by how the file is found.
    abbrev pub Answers : (body : String) → Opened → Go Response → Type 0
    Answers body (contents read) res =
        (read ≡ body) × (res ≡ returns (record { status = 200; text = body }))
    Answers body (cut part) res =
        (rest : String) × (body ≡ part ⧺ rest)
        × (res ≡ returns (record { status = 200; text = part }))
    Answers body (open_failed not_exist) res = ⊥
    Answers body (open_failed disk_error) res = res ≡ returns internal_error

    opened-Answers :
        (body : String) (o : Opened) (f : Option String)
        → Shows o f
        → f ≡ some body
        → Answers body o (returns (served o))
    opened-Answers body (contents read) f h k =
        let same : read ≡ body = ground (arith, h, k) in
        (same, ap (λ s. returns (record { status = 200; text = s })) same)
    opened-Answers body (cut part) f (rest, h) k = (rest, ground (arith, h, k), refl)
    opened-Answers body (open_failed not_exist) f h k = absurd (ground (arith, h, k))
    opened-Answers body (open_failed disk_error) f h k = refl

    abbrev status_of : Go Response → ℕ
    status_of (returns r) = r.status
    status_of panics = 0

    Ends-answer :
        (path body : String) (res : Go Response) (w : W)
        → Ends path body res w
        → res ≡ returns created
        → Answers body (d.open_file path w) (serve_binary d cache_dir path w).0
    unfolding serve_binary
    Ends-answer path body res w (inl (e, f)) h =
        opened-Answers body (d.open_file path w) (file path w) (disk.opened path w) f
    Ends-answer path body res w (inr (r, e, n)) h = absurd (n (ap status_of (sym e ∙ h)))

    -- The two handlers behind a guard that answers with another status than 201.
    handled :
        (bad : Bool) (r : Response) (path body : String) (w : W)
        → r.status ≢ 201
        → let put = if bad then pure r else store_binary d cache_dir path body in
          let get = if bad then pure r else serve_binary d cache_dir path in
          (put w).0 ≡ returns created → Answers body (d.open_file path (put w).1) (get (put w).1).0
    handled true r path body w n k = absurd (n (ap status_of k))
    handled false r path body w n k =
        Ends-answer path body (store_binary d cache_dir path body w).0
          (store_binary d cache_dir path body w).1 (store-Ends path body w) k

    -- A request for a binary that was stored with the answer 201 finds its file, and is answered with
    -- exactly the body that was stored where the file is read to its end, with a part from its start
    -- where the read is cut, and with 500 only where the file cannot be opened.
    pub handle_binary_roundtrip :
        (resource path arch body ignored : String) (w : W)
        → let put : Request = record { method = "PUT"; path = path; arch = arch; body = body } in
          let get : Request = record { method = "GET"; path = path; arch = arch; body = ignored } in
          let version = trim_prefix path ("/api/v1/" ⧺ resource ⧺ "/") in
          let (res, w') = handle_binary d cache_dir resource put w in
          res ≡ returns created
          → Answers body
              (d.open_file (bin_path_of d cache_dir resource arch version) w')
              (handle_binary d cache_dir resource get w').0
    unfolding handle_binary
    handle_binary_roundtrip resource path arch body ignored w =
        let version = trim_prefix path ("/api/v1/" ⧺ resource ⧺ "/") in
        handled (version == "" || version == "versions") (http_error "missing version" 400)
          (bin_path_of d cache_dir resource arch version) body w (λ n. omega (arith, n))

    -- Storing leaves every other file as it was, whatever fails.
    module _ (at path : String) (other : at ≢ path) (f : Option String) where
      abbrev Same : W → Type 0
      Same w = file at w ≡ f

      copy-Same : (res : Option DiskError) → Ensures Same Any (after_copy d cache_dir path res)
      copy-Same (some e) =
          Ensures-bind (call (d.remove_file path)) _
            (keeps_call _ (λ w p. disk.remove-others path at w other ∙ p))
            (λ u q. Ensures-pure _ tt)
      copy-Same none =
          Ensures-bind (call (d.chmod path)) _ (keeps_call _ (λ w p. disk.mode path at w ∙ p))
            (λ u q. Ensures-pure _ tt)

      create-Same :
          (body : String) (res : Option DiskError)
          → Ensures Same Any (after_create d cache_dir path body res)
      create-Same body (some e) = Ensures-pure _ tt
      create-Same body none =
          Ensures-bind (call (d.copy_to path body)) _
            (keeps_call _ (λ w p. disk.copy-others path body at w other ∙ p))
            (λ res q. copy-Same res)

      mkdir-Same :
          (body : String) (res : Option DiskError)
          → Ensures Same Any (after_mkdir d cache_dir path body res)
      mkdir-Same body (some e) = Ensures-pure _ tt
      mkdir-Same body none =
          Ensures-bind (call (d.create_file path)) _
            (keeps_call _ (λ w p. disk.create-others path at w other ∙ p))
            (λ res q. create-Same body res)

      store-Same : (body : String) → Ensures Same Any (store_binary d cache_dir path body)
      unfolding store_binary
      store-Same body =
          Ensures-bind (call (d.mkdir_all (dir_of path))) _
            (keeps_call _ (λ w p. disk.directories (dir_of path) at w ∙ p))
            (λ res q. mkdir-Same body res)

      guarded-Same :
          (bad : Bool) (r : Response) (m : Exec W Response)
          → Ensures Same Any m
          → Ensures Same Any (if bad then pure r else m)
      guarded-Same true r m h = Ensures-pure r tt
      guarded-Same false r m h = h

    -- A request leaves every file but its own as it was, whatever it is and whatever fails.
    pub handle_binary-others :
        (resource at : String) (r : Request) (w : W)
        → at
          ≢ bin_path_of d cache_dir resource r.arch
              (trim_prefix r.path ("/api/v1/" ⧺ resource ⧺ "/"))
        → file at (handle_binary d cache_dir resource r w).1 ≡ file at w
    unfolding handle_binary serve_binary
    handle_binary-others resource at r w other =
        let version = trim_prefix r.path ("/api/v1/" ⧺ resource ⧺ "/") in
        let path = bin_path_of d cache_dir resource r.arch version in
        let f = file at w in
        (guarded-Same at path other f (version == "" || version == "versions") _ _ (
            Ensures-if (r.method == "GET") _ _ (λ e. keeps_asks _)
              (λ e.
                Ensures-if (r.method == "PUT") _ _ (λ e. store-Same at path other f r.body)
                  (λ e. Ensures-pure _ tt)))).kept
          w refl
