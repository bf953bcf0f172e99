-- ===== src/Client/Paths.antt =====
-- Where the files of a client are.
use eternal_blue.Prelude.{Bytes, codes, [], ◌∷◌, ◌++◌, ◌≡◌, ◌≢◌, ◌⊎◌, inl, inr, refl, All}
use eternal_blue.Client.Start.{backend_subdir, eb_dir, keystore_path, store_path}
use mathlib.Core.List.{append_cancel_left, append_cancel_right}

-- No underscore.
abbrev pub IsPlain : Bytes → Type 0
IsPlain = All (λ c. c ≢ 95)

plain_lacks : (p a q : Bytes) → IsPlain p → p ≢ a ++ 95 ∷ q
plain_lacks [] [] q h e = cc
plain_lacks [] (d ∷ a) q h e = cc
plain_lacks (c ∷ p) [] q h e = h.0 (cc)
plain_lacks (c ∷ p) (d ∷ a) q h e = plain_lacks p a q h.1 (cc)

-- The last underscore is where the port starts.
last_underscore :
    (a b p q : Bytes) → IsPlain p → IsPlain q → a ++ 95 ∷ p ≡ b ++ 95 ∷ q → (a ≡ b) × (p ≡ q)
last_underscore [] [] p q h k e = (refl, cc)
last_underscore [] (d ∷ b) p q h k e = absurd (plain_lacks p b q h (cc))
last_underscore (c ∷ a) [] p q h k e = absurd (plain_lacks q a p k (cc))
last_underscore (c ∷ a) (d ∷ b) p q h k e =
    let (same, port) = last_underscore a b p q h k (cc) in (cc, port)

-- The same file in a directory of its own for two backends.
eb_dir_inj :
    (home host port host' port' name : Bytes)
    → IsPlain port
    → IsPlain port'
    → eb_dir home host port ++ name ≡ eb_dir home host' port' ++ name
    → (host ≡ host') × (port ≡ port')
eb_dir_inj home host port host' port' name h k e =
    let parent = codes "/.eternal-messenger/" in
    let dirs = append_cancel_right (eb_dir home host port) (eb_dir home host' port') name e in
    let below =
      append_cancel_left home (parent ++ backend_subdir host port)
        (parent ++ backend_subdir host' port') dirs in
    last_underscore host host' port port' h k
      (append_cancel_left parent (backend_subdir host port) (backend_subdir host' port') below)

-- With ports that have no underscore in them, two backends share neither the database nor the keystore:
-- equal paths of either kind have the same host and port.
pub paths_inj :
    (home host port host' port' : Bytes)
    → IsPlain port
    → IsPlain port'
    → (store_path home host port ≡ store_path home host' port')
      ⊎ (keystore_path home host port ≡ keystore_path home host' port')
    → (host ≡ host') × (port ≡ port')
unfolding store_path keystore_path
paths_inj home host port host' port' h k (inl e) =
    eb_dir_inj home host port host' port' (codes "/store.db") h k e
paths_inj home host port host' port' h k (inr e) =
    eb_dir_inj home host port host' port' (codes "/keys.bin") h k e
