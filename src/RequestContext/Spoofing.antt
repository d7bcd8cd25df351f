-- ===== src/RequestContext/Spoofing.antt =====
-- dashboard/app/security/request_context.py: a header that a client has written into.
use opnsense_hub.Base.{
  ◌≡◌, refl, ◌∙◌, ap, Bool, true, false, not, some, List, [], ◌∷◌, ◌++◌, Text, find, is_some, strip,
  split, split-append, arith,
}
use mathlib.Core.List.{reverse, reverse-append}
use opnsense_hub.RequestContext.{
  Addresses, is_text, is_client, is_trusted_proxy, forwarded_hops, client_ip,
}

module _ (a : Addresses) where
  forwarded_hops-append :
      (xs ys : List Text) → forwarded_hops a (xs ++ ys) ≡ forwarded_hops a xs ++ forwarded_hops a ys
  unfolding forwarded_hops
  forwarded_hops-append [] ys = refl
  forwarded_hops-append (x ∷ xs) ys = ground (arith, forwarded_hops-append xs ys)

  forwarded_hops-one :
      (real : Text)
      → is_text (strip real) ≡ true
      → is_some (a.ip_address (strip real)) ≡ true
      → forwarded_hops a (real ∷ []) ≡ strip real ∷ []
  unfolding forwarded_hops
  forwarded_hops-one real h k = ground arith

  find-head : (p : Text → Bool) (x : Text) (xs : List Text) → p x ≡ true → find p (x ∷ xs) ≡ some x
  unfolding find
  find-head p x xs h = ground arith

  -- Behind a trusted proxy that appends the address of its peer, `real`, to the header, a client is
  -- known by this address, whatever it wrote into the header itself, if the address is valid and not
  -- a trusted proxy's.
  pub client_ip_appended :
      (cidrs direct_ip spoofed real : Text)
      → is_text direct_ip ≡ true
      → is_trusted_proxy a cidrs direct_ip ≡ true
      → split b',' real ≡ real ∷ []
      → is_text (strip real) ≡ true
      → is_some (a.ip_address (strip real)) ≡ true
      → is_trusted_proxy a cidrs (strip real) ≡ false
      → client_ip a cidrs direct_ip (spoofed ++ (b',' ∷ real)) ≡ strip real
  unfolding client_ip
  client_ip_appended cidrs direct_ip spoofed real there trusted single text valid outside =
      let hops : forwarded_hops a (split b',' (spoofed ++ (b',' ∷ real)))
          ≡ forwarded_hops a (split b',' spoofed) ++ (strip real ∷ []) =
        ap (forwarded_hops a) (split-append b',' spoofed real)
        ∙ forwarded_hops-append (split b',' spoofed) (split b',' real)
        ∙ ap (λ xs. forwarded_hops a (split b',' spoofed) ++ forwarded_hops a xs) single
        ∙ ap (λ xs. forwarded_hops a (split b',' spoofed) ++ xs)
            (forwarded_hops-one real text valid) in
      let reversed : reverse (forwarded_hops a (split b',' spoofed) ++ (strip real ∷ []))
          ≡ strip real ∷ reverse (forwarded_hops a (split b',' spoofed)) =
        reverse-append (forwarded_hops a (split b',' spoofed)) (strip real ∷ []) in
      let first =
        find-head (is_client a cidrs) (strip real) (reverse (forwarded_hops a (split b',' spoofed)))
          (ap not outside) in
      rw (there, trusted, hops, reversed, first) refl
