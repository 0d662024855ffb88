-- ===== src/Muduo/Thread.antt =====
-- mymuduo/thread.h, thread.cpp, current_thread.h and current_thread.cpp: the fields of a Thread, its
-- name, and the cache of a thread's id. How `Start`, `Join` and the destructor run with the new
-- thread is part of Muduo/LoopThread.antt. A character is its code, an `int` its residue.
pub mod Names
mod Tests
use cpp_toy.Base.{
  ℕ, ◌+◌, ◌%◌, List, [], ◌∷◌, ◌++◌, Bool, false, length, take, ◌==◌, if◌then◌else◌, int_mod,
  print_int,
}

pub record Thread : Type 0 where
  pub started : Bool
  pub joined : Bool
  pub tid : ℕ
  pub name : List ℕ

-- "Thread"
abbrev pub prefix_text : List ℕ
prefix_text = 84 ∷ 104 ∷ 114 ∷ 101 ∷ 97 ∷ 100 ∷ []

-- What `snprintf` leaves in the array of 32 characters, before its null character.
unfoldable pub default_name : ℕ → List ℕ
default_name num = take 31 (prefix_text ++ print_int num)

-- `num` is the counter after its increment.
unfoldable pub set_default_name : (num : ℕ) → Thread → Thread
set_default_name num t = if length t.name == 0 then record t { name = default_name num } else t

-- The constructor, with the counter `num_created_` of the process, an atomic `int` that wraps.
unfoldable pub create : (name : List ℕ) → (num_created : ℕ) → Thread × ℕ
create name num_created =
    let num = (num_created + 1) % int_mod in
    (set_default_name num (record { started = false; joined = false; tid = 0; name = name }), num)

-- `cached` is the thread-local `cached_tid`, 0 before the first call; `id` is what gettid gives.
unfoldable pub cache_tid : (id cached : ℕ) → ℕ
cache_tid id cached = if cached == 0 then id else cached

-- The id, with the cache after the call.
unfoldable pub current_tid : (id cached : ℕ) → ℕ × ℕ
current_tid id cached =
    let cached' = if cached == 0 then cache_tid id cached else cached in (cached', cached')

unfoldable pub is_main_thread : (id pid cached : ℕ) → Bool
is_main_thread id pid cached = (current_tid id cached).0 == pid
