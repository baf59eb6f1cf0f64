-- ===== src/Lib.antt =====
-- Verification of cpplint.py, the style checker of C++ sources that this repository keeps.
--
-- cpplint reads a file as a list of lines, cleanses them of comments and strings, and runs its
-- checks on each line. A check reports through `Error`, which asks whether the line is under a
-- NOLINT comment, whether the confidence reaches the verbosity and whether the last filter that
-- applies lets the category through, and then counts and prints the error.
--
-- The files, all about cpplint.py:
--   Common: names of the libraries, Boolean tests on the native numbers, lists.
--   Text: a `str` is the list of its code points; its methods `find`, `strip`, `split`, `replace`,
--     `count`, `lower` and so on. Text/Laws has their laws.
--   Regex: patterns of `re` as data, and `run`, which lists the ways in which a pattern matches in
--     the order in which `re` tries them; `Match`, `Search` and `ReplaceAll` on top of it.
--     Regex/Meaning says without backtracking what a pattern means; Regex/Classes has `\s`, `[...]`.
--   Categories: the tables of error categories, and the record of a reported error.
--   Suppress: `ParseNolintSuppressions`, `ProcessGlobalSuppresions`, `IsErrorSuppressedByNolint` on
--     the two dictionaries, as association lists.
--   Lint: `_CppLintState` and `_ShouldPrintError`; Lint/Report is `Error` in all output formats, and
--     Lint/Junit is `FormatJUnitXML`.
--   Functions: `_FunctionState` and `CheckForFunctionLengths`.
--   Brackets: `FindEndOfExpressionInLine` and `CloseExpression`; Brackets/Reverse has the two
--     functions that scan to the left.
--   Includes: `_IncludeState`. Includes/CppHeaders and Includes/CHeaders are the tables of headers,
--     Includes/Classify is `_DropCommonSuffixes` and `_ClassifyInclude`, and Includes/Check is
--     `CheckIncludeLine` with `IsInAlphabeticalOrder`.
--   Cleanse: what is rewritten before the checks. Cleanse/Raw is `CleanseRawStrings`,
--     Cleanse/Comments is `RemoveMultiLineComments` with its helpers, and Cleanse/Lines has
--     `IsCppString`, `CleanseComments` and class `CleansedLines`.
--   Preprocessor: `NestingState.UpdatePreprocessor` with its stack of #if blocks.
--   Blocks: `_BlockInfo`, `_ExternCInfo`, `_ClassInfo` and `_NamespaceInfo` with `CheckBegin` and
--     `CheckEnd`, as one record with a kind. Where the source compares two objects by identity, the
--     record has a number that no other object has. Blocks/Closing has `CheckEnd`.
--   Nesting: `NestingState`. Nesting/Stack has the questions about the stack, Nesting/Templates is
--     `InTemplateArgumentList`, and `Update` is in Nesting/Declarations (namespaces, classes and
--     access), Nesting/Tokens (braces and semicolons) and Nesting/Update (the whole of it), with
--     `CheckCompletedBlocks` and `CheckForNamespaceIndentation`.
--   Options: the global options, `ProcessExtensionsOption` and the like, and the functions on file
--     extensions. A set is a list in the order of its iteration.
--   Paths: class `FileInfo`, on the functions of os.path, which are a parameter.
--   Config: `ProcessConfigOverrides`, on the file system, `re` and `int()` as parameters.
--   Arguments: `ParseArguments`, `_ExpandDirectories`, `_FilterExcludedFiles`, `_IsParentOrSame`.
--   Driver: `ProcessLine` and `ProcessFileData`; Driver/Cxx11 is `FlagCxx11Features`, Driver/File is
--     `ProcessFile`, and Driver/Main is `main`.
--   FileChecks: `CheckForCopyright`, `CheckForBadCharacters`, `CheckForNewlineAtEOF`,
--     `CheckForMultilineCommentsAndStrings`, `CheckInvalidIncrement` and the tests of one line
--     `GetIndentLevel`, `IsBlankLine`, `IsMacroDefinition`, `IsForwardClassDeclaration`.
--   LineChecks: `CheckPosixThreading`, `CheckVlogArguments`, `CheckMakePairUsesDeduction` and
--     `CheckRedundantOverrideOrFinal`; LineChecks/Virtual is `CheckRedundantVirtual`.
--   Style: `CheckStyle`, and its own checks in Style/Layout, with `GetLineWidth`; below it
--     Style/Calls is `CheckSpacingForFunctionCall`, Style/Comments `CheckComment`, Style/Spacing
--     `CheckSpacing`, Style/Operators `CheckOperatorSpacing`, Style/Parentheses
--     `CheckParenthesisSpacing` and `CheckCommaSpacing`, Style/Braces `_IsType` and
--     `CheckBracesSpacing`, Style/Sections `GetPreviousNonBlankLine` and `CheckSectionSpacing`,
--     Style/Else and Style/Bodies `CheckBraces`, Style/Semicolons `CheckTrailingSemicolon`,
--     Style/EmptyBodies `CheckEmptyBlockBody`, Style/Checks `FindCheckMacro` and `CheckCheck`, and
--     Style/AltTokens `CheckAltTokens`.
--   HeaderGuard: `CheckForHeaderGuard`, as the list of what it reports and of the lines that it hands
--     to `ParseNolintSuppressions`, in order.
--   Tests: runs on concrete input, and each theorem with a hypothesis or a binder at one input.
--
-- Conventions. State is passed explicitly, with the global objects of the source as records. A call
-- of `error` becomes a record of the report in the result. An index of -1 that means "nothing" is
-- `none`, and so is an IndexError or a failed assertion, as the definition says. `verbose` stands for
-- _VerboseLevel(). A stack is a list with its top in front. Characters are classified as in Unicode
-- for `\s` and as in ASCII for `\w`, `\d`, `\b`, `lower` and `isdigit`.
--
-- Bounds and fuel. A repetition of a pattern runs on the number of characters that are left: a
-- round that consumes nothing is not repeated, so this is enough. `decimal` has a step for each
-- digit and takes n + 1 of them. The logarithm of the confidence of a long function is counted in
-- doublings up to the cap of 5 that the source applies. The loops that rewrite a line or a file, and
-- those of `Update`, run on its length, since each round leaves a shorter line or goes on at a later
-- one. The loops up the directories run on the length of the path, and answer `none` where that is
-- not enough. `InTemplateArgumentList` has a round for each character and each end of a line, each of
-- which goes on further behind. The loop of `CheckOperatorSpacing` over the names of operators and that
-- of `CheckCheck` have a round for each character and one more.
--
-- Parameters. A verbosity is a number from 0 on, so that `int()` of a negative one is left out. The
-- checks that ProcessLine and ProcessFileData call and that are not modelled are the record `Checks`
-- of Driver: functions of the state that a check is passed, which report or do not return, and of which
-- CheckLanguage also gives the new include state. The module unicodedata, by which `GetLineWidth` counts
-- columns, is a parameter too.
--
-- Not modelled: `CheckLanguage` and what it calls, `CheckForNonConstReference` and
-- `CheckForNonStandardConstructs`, the name of a header guard, the checks that read the
-- included files, the texts of the usage, version and category listings, and the text that xml.etree
-- makes of an element tree, which is a parameter. The C++ framework in myframe, its launcher, Python
-- bindings, examples and tests are not modelled.
pub mod Arguments
pub mod Blocks
pub mod Brackets
pub mod Categories
pub mod Cleanse
pub mod Common
pub mod Config
pub mod Driver
pub mod FileChecks
pub mod Functions
pub mod HeaderGuard
pub mod Includes
pub mod LineChecks
pub mod Lint
pub mod Nesting
pub mod Options
pub mod Paths
pub mod Preprocessor
pub mod Regex
pub mod Style
pub mod Suppress
pub mod Tests
pub mod Text
