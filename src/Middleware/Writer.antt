-- ===== src/Middleware/Writer.antt =====
-- http.ResponseWriter of net/http, as an interface: what a client receives, as the calls change it.
use llm_gateway.Base.{ℕ, ◌≤◌, ◌≡◌, Bool, List, [], ◌++◌, String}

abbrev pub Bytes : Type 0
Bytes = List ℕ

pub record ResponseWriter (W : Type 0) : Type 0 where
  -- Header().Get("Content-Type")
  pub content_type : W → String
  -- Header().Set
  pub set_header : W → String → String → W
  pub write_header : W → ℕ → W
  pub write : W → Bytes → W
  -- whether that write returns an error
  pub fails : W → Bytes → Bool
  pub flush : W → W

-- The documented behaviour: the first final status stands (those below 200 are sent apart from it), a
-- write without one sends 200, the writes make up the body, and a flush changes nothing once the
-- status is sent.
pub record WriterLaws {W : Type 0} (h : ResponseWriter W) : Type 0 where
  pub header_once :
      (w : W) (s t : ℕ) → 200 ≤ s → h.write_header (h.write_header w s) t ≡ h.write_header w s
  pub header_late : (w : W) (b : Bytes) (t : ℕ) → h.write_header (h.write w b) t ≡ h.write w b
  pub write_implies_ok : (w : W) (b : Bytes) → h.write w b ≡ h.write (h.write_header w 200) b
  pub write_join : (w : W) (a b : Bytes) → h.write (h.write w a) b ≡ h.write w (a ++ b)
  pub write_nothing :
      (w : W) (s : ℕ) → 200 ≤ s → h.write (h.write_header w s) [] ≡ h.write_header w s
  pub flush_header : (w : W) (s : ℕ) → 200 ≤ s → h.flush (h.write_header w s) ≡ h.write_header w s
  pub flush_write : (w : W) (b : Bytes) → h.flush (h.write w b) ≡ h.write w b
