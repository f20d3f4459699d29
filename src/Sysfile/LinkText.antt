-- ===== src/Sysfile/LinkText.antt =====
-- What the calls that make and read symbolic links acquire and give back.
use os.Base.{ℕ, suc, ◌≡◌, ◌==◌, ◌&&◌, Option, none, some, List, arith, Bool-cases, ok, inl, inr}
use os.Sysfile.State.{Services, Sys, ◌>>◌, commit_trans, count_some}
use os.Sysfile.Names.{t_file, create}
use os.Sysfile.Links.{
  Chain, broken, last, make_link, sys_symlink, last_link, link_at, copy_text, read_link,
  sys_readlink, k_text, k_read_link, k_readlink, enter, sys_chdir,
}
use os.Sysfile.Balance.{Owes, create-Owes, M-bind}
use os.Sysfile.Chains.{Loses, count_last, began, last_link-Loses, link_at-Loses}

module _ {W : Type 0} (sv : Services W) where
  make_link-Owes :
      (target : List ℕ) (made : Option ℕ) (s t : Sys W) {r : Option ℕ} {s' : Sys W}
      → Owes (count_some made) (count_some made) 0 (began sv s) t
      → (commit_trans sv >> make_link sv target made) t ≡ ok (r, s')
      → Owes 0 0 (count_some r) s s'
  make_link-Owes target none s t owed e = ground arith
  make_link-Owes target (some ip) s t owed e = ground arith

  -- A new link owes its file to nobody.
  pub symlink-Owes :
      (target path : Option (List ℕ)) (s : Sys W) {r : Option ℕ} {s' : Sys W}
      → sys_symlink sv target path s ≡ ok (r, s')
      → Owes 0 0 (count_some r) s s'
  unfolding sys_symlink
  symlink-Owes none path s e = ground arith
  symlink-Owes (some target) none s e = ground arith
  symlink-Owes (some target) (some path) s e =
      let (made, t, ran, rest) = M-bind (create sv path t_file 0 0) _ (began sv s) e in
      make_link-Owes target made s t (create-Owes sv path t_file 0 0 _ ran) rest

  copy_text-Loses :
      (buf bufsiz : ℕ) (chain : Chain) {s0 : Sys W} (s : Sys W) {r : Option ℕ} {s' : Sys W}
      → Loses (count_last chain) (suc (count_last chain)) s0 s
      → copy_text sv buf bufsiz chain s ≡ ok (r, s')
      → Loses 0 (count_some r) s0 s'
  copy_text-Loses buf bufsiz broken s (m, owed) e = (m, ground arith)
  copy_text-Loses buf bufsiz (last ip) s (m, owed) e =
      elim (Bool-cases (((sv.info s.world ip).type == t_file) && (sv.info s.world ip).symlnk)) [
        | inl link ↦ (suc m, ground arith)
        | inr other ↦ (suc (suc m), ground arith)
      ]

  read_link-Loses :
      (buf bufsiz : ℕ) (link : Option ℕ) {s0 : Sys W} (s : Sys W) {r : Option ℕ} {s' : Sys W}
      → Loses (count_some link) (count_some link) s0 s
      → read_link sv buf bufsiz link s ≡ ok (r, s')
      → Loses 0 (count_some r) s0 s'
  read_link-Loses buf bufsiz none s (m, owed) e = (m, ground arith)
  read_link-Loses buf bufsiz (some ip) s owed e =
      let (chain, t, ran, rest) = M-bind (last_link sv 16 ip) (copy_text sv buf bufsiz) s e in
      copy_text-Loses buf bufsiz chain t (last_link-Loses sv 16 ip s owed ran) rest

  -- A link that is read keeps a reference.
  pub readlink-Loses :
      (path : Option (List ℕ)) (buf bufsiz : Option ℕ) (s : Sys W) {r : Option ℕ} {s' : Sys W}
      → sys_readlink sv path buf bufsiz s ≡ ok (r, s')
      → Loses 0 (count_some r) s s'
  unfolding sys_readlink
  readlink-Loses none buf bufsiz s e = (0, ground arith)
  readlink-Loses (some path) none bufsiz s e = (0, ground arith)
  readlink-Loses (some path) (some buf) none s e = (0, ground arith)
  readlink-Loses (some path) (some buf) (some bufsiz) s e =
      let (link, t, ran, rest) = M-bind (link_at sv path) (read_link sv buf bufsiz) s e in
      read_link-Loses buf bufsiz link t (link_at-Loses sv path s ran) rest

  k_text-Loses :
      (bufsiz : ℕ) (chain : Chain) {s0 : Sys W} (s : Sys W) {r : Option (List ℕ)} {s' : Sys W}
      → Loses (count_last chain) (suc (count_last chain)) s0 s
      → k_text sv bufsiz chain s ≡ ok (r, s')
      → Loses 0 0 s0 s'
  k_text-Loses bufsiz broken s (m, owed) e = (suc m, ground arith)
  k_text-Loses bufsiz (last ip) s (m, owed) e = (suc (suc m), ground arith)

  k_read_link-Loses :
      (bufsiz : ℕ) (link : Option ℕ) {s0 : Sys W} (s : Sys W) {r : Option (List ℕ)} {s' : Sys W}
      → Loses (count_some link) (count_some link) s0 s
      → k_read_link sv bufsiz link s ≡ ok (r, s')
      → Loses 0 0 s0 s'
  k_read_link-Loses bufsiz none s (m, owed) e = (m, ground arith)
  k_read_link-Loses bufsiz (some ip) s owed e =
      let (chain, t, ran, rest) = M-bind (last_link sv 16 ip) (k_text sv bufsiz) s e in
      k_text-Loses bufsiz chain t (last_link-Loses sv 16 ip s owed ran) rest

  k_readlink-Loses :
      (path : List ℕ) (bufsiz : ℕ) (s : Sys W) {r : Option (List ℕ)} {s' : Sys W}
      → k_readlink sv path bufsiz s ≡ ok (r, s')
      → Loses 0 0 s s'
  unfolding k_readlink
  k_readlink-Loses path bufsiz s e =
      let (link, t, ran, rest) = M-bind (link_at sv path) (k_read_link sv bufsiz) s e in
      k_read_link-Loses bufsiz link t (link_at-Loses sv path s ran) rest

  enter-Loses :
      (path : List ℕ) {s0 : Sys W} (s : Sys W) {r : Option ℕ} {s' : Sys W}
      → Loses 0 0 s0 s
      → enter sv path s ≡ ok (r, s')
      → Loses 0 0 s0 s'
  unfolding enter
  enter-Loses path s (m, owed) e = (m, ground arith)

  pub chdir-Loses :
      (path : Option (List ℕ)) (s : Sys W) {r : Option ℕ} {s' : Sys W}
      → sys_chdir sv path s ≡ ok (r, s')
      → Loses 0 0 s s'
  unfolding sys_chdir
  chdir-Loses none s e = (0, ground arith)
  chdir-Loses (some path) s e =
      let (text, t, ran, rest) = M-bind (k_readlink sv path 50) _ s e in
      enter-Loses _ t (k_readlink-Loses path 50 s ran) rest
