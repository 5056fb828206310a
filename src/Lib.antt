-- ===== src/Lib.antt =====
-- The frontend of the rx compiler, from the parse trees of the files to the diagnostics. The frontend
-- (compiler/rx-frontend.cpp) opens a root file and the files it imports, builds a syntax tree of each, puts
-- the programs in an order along the import graph, creates a global scope, declares the built-in types
-- in it and runs three passes over each program. A pass is one or more visitors over the syntax tree that
-- share a lexical context, a type context and a list of diagnostics. Beside it stand the tool that prints
-- parse trees, the runtime of compiled programs and a pass of LLVM over structure types.
--
-- Common: names of the library, Boolean tests, lists and association lists over the native numbers.
-- Location, Basic: compiler/include/rxc/Basic/SourceManager.h and Diagnostic.h. A text of a diagnostic is a
-- constructor with the values that are spliced into it; a file is a number.
-- Types: compiler/include/rxc/AST/Type.h, QualType.h, TypeContext.h and their .cpp files. A pointer to a type
-- is the unit type, a built-in type or a position in the order of allocation, so the tables of the context
-- are one list. getNamedType is get_named_type, and so on. The hash of a map of types starts from an
-- indeterminate value in the source and is no function of the map, so which entries a lookup of an object or an enum
-- reaches is a parameter, lookup by lookup, of which nothing is assumed. Types/Names has
-- getTypeName, with fuel for the pointers that are followed, and Types/Shapes what a type is without pointers.
-- Ast: compiler/include/rxc/AST/AST.h. A node has an identity, which stands for its address. The fields that
-- the passes write (Type, DeclNode, Scope, ExprType) are functions of the identity in the state.
-- Scopes: compiler/include/rxc/Sema/LexicalScope.h, LexicalContext.h and compiler/lib/Sema/LexicalScope.cpp. A
-- pointer to a scope is a position in ScopeStorage, from which nothing is removed.
-- Sema: the state of the analysis and its actions. An action ends in a result with a state, in a fault
-- (a failed assertion, a call through a null pointer, llvm_unreachable, or a scope that does not exist),
-- or out of fuel. Assertions are taken as enabled.
-- Visitor: compiler/include/rxc/Sema/RecursiveASTVisitor.h. A visitor is a record of members that are
-- given the visits of the children; the scope is passed down where the source keeps a stack of scopes.
-- Visitor/Contract has the rules by which actions and visits keep a contract.
-- Parser: compiler/lib/Parser. Parser/Tree has the parse trees of grammar/LangParser.g4; Parser/Types, Build and
-- Program are the members of ParseTreeVisitor.h (visitProgram is build_program, and so on), which create nodes
-- one after the other, so that the identity of a node is its place in that order. What the tokens are
-- and whether a number is an integer are parameters (Source). A failed assertion or a null pointer is a Crash.
-- Printer: compiler/lib/AST/ASTPrinter.cpp. Printer/Nodes has the members of the visitor: the line of a node and its
-- children, each with the flag of its scope; Printer has the depth, the flags and the scopes. A line is
-- its prefix, piece by piece, and what is known of the node without the tables of the analysis.
-- Console: compiler/lib/Basic/Diagnostic.cpp. A file's content is its bytes; what is printed is a list of the
-- message, its origin and the source lines with their numbers.
-- Package: compiler/lib/Package/Package.cpp, over JSON values; their text is LLVM's and a parameter (Codec).
-- Frontend: compiler/lib/Frontend and SourceManager::OpenFile. TranslationUnitContext::traverseFileImports is
-- traverse; the disk and LLVM's functions on paths are parameters (Disk). A translation unit is known by
-- its path, the key of the table, and each file's tokens and parse tree come from the disk. Frontend/Order is the
-- loop of main over the strongly connected components, which are LLVM's and a parameter; Frontend/Graph is
-- the graph that LLVM computes them of (TranslationUnitContext.h).
-- Passes: the visitors of compiler/lib/Sema. ForwardDeclareType is DeclareTypes, ResolveTypeSymbol is
-- ResolveTypes, MaterializeType is Materialize, DeclareFunctionsAndImpl is Overloads, TypeCheckImpl is
-- TypeCheck. Passes/Growth is the contract that relates the states before and after a pass.
-- Analysis: SemaPassManager::run of compiler/lib/Sema/Sema.cpp, populateBuiltins and the loop of main.
-- Driver: the rest of main of compiler/rx-frontend.cpp, from the command line's input file to the exit code, over
-- the traversal, the order and the analysis; real_path is a parameter (System).
-- Runtime: runtime/runtime.cpp. The memory is its bytes by address; operator new, the table of stack maps and
-- the frames of the stack are parameters (Library, Frame). What is written to the error stream is a list of events. A
-- write beyond a block and a free of what is no block are faults. The program that is run makes calls of the
-- runtime and stores into its objects (Runtime/Blocks, Step).
-- Tool: compiler/parse-tree.cpp, over compiler/lib/Parser/Parser.cpp in Parser/Session, whose Input is what the
-- generated parser makes of a file, its reports of errors of the syntax included.
-- HeapMap: compiler/passes/HeapMapPass.cpp, over types of LLVM as far as the pass tells them apart.
-- Tests: a run of all passes, and an instance of each theorem.
--
-- Fuel. The loop of find has as many rounds as there are scopes, which is enough in a tree since each parent
-- stands before its children. MaterializeType follows aliases without a bound; its fuel is the number of
-- references that are followed one inside another; the results say when some amount is enough. The fuel of
-- the traversal of imports is the number of rounds of its loop, for which a finite list of paths that is closed under
-- the imports gives a bound, and the loop over the source lines has two
-- rounds more than the file has bytes, since every round but two passes a newline.
--
-- Not modelled: the generated lexer and parser, and parse trees with syntax errors; debug output, the command
-- line, files, and LLVM, whose components of the import graph are any lists here. A number literal is its
-- text and whether its value is an integer, which LLVM's APFloat answers. The standard library is written in
-- rx.
pub mod Common
pub mod Location
pub mod Types
pub mod Ast
pub mod Scopes
pub mod Basic
pub mod Sema
pub mod Visitor
pub mod Parser
pub mod Printer
pub mod Console
pub mod Package
pub mod Frontend
pub mod Passes
pub mod Analysis
pub mod Runtime
pub mod HeapMap
pub mod Tool
pub mod Driver
mod Tests
