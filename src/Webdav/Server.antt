-- ===== src/Webdav/Server.antt =====
-- A WebDAV server behind the HTTP client library, neither of which is code of this repository. An
-- answer is a status, or `none` for an `httpx.HTTPError`.
use camvault.Prelude.{
  ℕ, ◌≡◌, List, [], ◌∷◌, Bool, true, false, ◌&&◌, ◌||◌, text_eq, Option, some, flatten, ◌==◌,
}
use camvault.Crypto.Bytes.{Bytes}
use camvault.Read.Range.{Text}

abbrev pub Answer : Type 0
Answer = Option ℕ

-- The response to a GET: its status, its `content-length`, the chunks that the client library hands
-- over, and whether an error ended them.
pub record Got : Type 0 where
  pub status : Answer
  pub declared : Option Text
  pub chunks : List Bytes
  pub broken : Bool

abbrev pub is_stored : ℕ → Bool
is_stored status = status == 200 || status == 201 || status == 204

-- A resource is named by the parts of its path.
abbrev pub Target : Type 0
Target = List Text

-- The first path is the second one or that of a collection above it.
abbrev pub above : Target → Target → Bool
above [] qs = true
above (p ∷ ps) [] = false
above (p ∷ ps) (q ∷ qs) = text_eq p q && above ps qs

-- What each method does to the server's state, and what it promises of the object at a path: a body
-- that is accepted in full is stored, a move that is accepted carries the object over, a whole
-- response with status 200 is the object, and no request touches an object that is not at its paths
-- or below them. A PUT whose body breaks off, and a request that fails, may have done anything there.
-- No one else writes to these paths meanwhile.
pub record Server : Type 1 where
  pub State : Type 0
  pub content : Target → State → Option Bytes
  pub options : State → Answer × State
  pub make_collection : Target → State → Answer × State
  pub put : Target → Bytes → Bool → State → Answer × State
  pub move : Target → Target → State → Answer × State
  pub get : Target → State → Got × State
  pub delete : Target → State → Answer × State
  pub options-content : (q : Target) (s : State) → content q (options s).1 ≡ content q s
  pub make_collection-content :
      (q p : Target) (s : State) → content q (make_collection p s).1 ≡ content q s
  pub put_stored :
      (p : Target) (bytes : Bytes) (s : State) (status : ℕ)
      → (put p bytes true s).0 ≡ some status
      → is_stored status ≡ true
      → content p (put p bytes true s).1 ≡ some bytes
  pub put_apart :
      (p q : Target) (bytes : Bytes) (whole : Bool) (s : State)
      → above p q ≡ false
      → content q (put p bytes whole s).1 ≡ content q s
  pub move_moved :
      (p q : Target) (s : State) (status : ℕ)
      → (move p q s).0 ≡ some status
      → is_stored status ≡ true
      → content q (move p q s).1 ≡ content p s
  pub move_apart :
      (p q r : Target) (s : State)
      → above p r ≡ false
      → above q r ≡ false
      → content r (move p q s).1 ≡ content r s
  pub get-content : (p q : Target) (s : State) → content q (get p s).1 ≡ content q s
  pub get_whole :
      (p : Target) (s : State)
      → (get p s).0.status ≡ some 200
      → (get p s).0.broken ≡ false
      → content p s ≡ some (flatten (get p s).0.chunks)
  pub delete_apart :
      (p q : Target) (s : State) → above p q ≡ false → content q (delete p s).1 ≡ content q s

-- The backend: its server, the parts of the configured root, SHA-256 in hexadecimal, and
-- `atomic_upload`.
pub record Backend : Type 1 where
  pub server : Server
  pub root : Target
  pub digest : Bytes → Text
  pub atomic_upload : Bool
