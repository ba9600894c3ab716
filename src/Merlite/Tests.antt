-- ===== src/Merlite/Tests.antt =====
-- A small contract with a state variable and two functions.
use mermai_blockchain.Base.{ℕ, ◌≡◌, refl, Option, none, some, List, [], ◌∷◌, arith}
use mermai_blockchain.Base.Key.{Bytes, bytes_beq}
use mermai_blockchain.Vm.Sample.{sample_header}
use mermai_blockchain.Merlite.{is_word}
use mermai_blockchain.Base.Map.{find_or, find, insert}
use mermai_blockchain.Merlite.Reader.{stoull}
use mermai_blockchain.Merlite.Compile.{CompilationResult, compile}
use mermai_blockchain.Merlite.Compile.Fits.{HasDistinctSlots}
use mermai_blockchain.Merlite.Compile.Layout.{compile-HasDistinctSlots}

-- contract A { state uint256 n
--  pub fn f() { n = 7
--  } pub fn g() { } }
abbrev source : Bytes
source =
    99 ∷ 111 ∷ 110 ∷ 116 ∷ 114 ∷ 97 ∷ 99 ∷ 116 ∷ 32 ∷ 65 ∷ 32 ∷ 123 ∷ 32 ∷ 115 ∷ 116 ∷ 97 ∷ 116
    ∷ 101 ∷ 32 ∷ 117 ∷ 105 ∷ 110 ∷ 116 ∷ 50 ∷ 53 ∷ 54 ∷ 32 ∷ 110 ∷ 10 ∷ 32 ∷ 112 ∷ 117 ∷ 98 ∷ 32
    ∷ 102 ∷ 110 ∷ 32 ∷ 102 ∷ 40 ∷ 41 ∷ 32 ∷ 123 ∷ 32 ∷ 110 ∷ 32 ∷ 61 ∷ 32 ∷ 55 ∷ 10 ∷ 32 ∷ 125 ∷ 32
    ∷ 112 ∷ 117 ∷ 98 ∷ 32 ∷ 102 ∷ 110 ∷ 32 ∷ 103 ∷ 40 ∷ 41 ∷ 32 ∷ 123 ∷ 32 ∷ 125 ∷ 32 ∷ 125 ∷ []

functions_of : Option CompilationResult → List Bytes
functions_of none = []
functions_of (some result) = result.functions

bytecode_of : Option CompilationResult → Bytes
bytecode_of none = []
bytecode_of (some result) = result.bytecode

-- The second function is passed over.
compile-functions : functions_of (compile sample_header source) ≡ (b'f' ∷ []) ∷ []
unfolding functions_of compile is_word bytes_beq stoull
compile-functions = refl

compile-bytecode : bytecode_of (compile sample_header source) ≡ 1 ∷ 0 ∷ 1 ∷ 7 ∷ 17 ∷ 26 ∷ []
unfolding bytecode_of compile is_word bytes_beq stoull find_or find insert
compile-bytecode = refl

compile-HasDistinctSlots_example :
    (result : CompilationResult) × (compile sample_header source ≡ some result)
    × (next_slot : ℕ) × HasDistinctSlots result.storage_layout next_slot
compile-HasDistinctSlots_example = compile-HasDistinctSlots sample_header source (omega arith)
