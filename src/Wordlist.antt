-- ===== src/Wordlist.antt =====
-- src/keystonecrypto/mnemonic.py: the list of words. The children hold 256 words each.
mod Words0
mod Words256
mod Words512
mod Words768
mod Words1024
mod Words1280
mod Words1536
mod Words1792
unfoldable pub use Words0.{words_0, words_128}
unfoldable pub use Words256.{words_256, words_384}
unfoldable pub use Words512.{words_512, words_640}
unfoldable pub use Words768.{words_768, words_896}
unfoldable pub use Words1024.{words_1024, words_1152}
unfoldable pub use Words1280.{words_1280, words_1408}
unfoldable pub use Words1536.{words_1536, words_1664}
unfoldable pub use Words1792.{words_1792, words_1920}
use Prim.Native.String.{String}
use keystone_crypto.Prelude.{List, [], ◌++◌}

-- `_ENGLISH_WORDLIST`
unfoldable pub english_wordlist : List String
unfolding words_0 words_128 words_256 words_384 words_512 words_640 words_768 words_896 words_1024
    words_1152 words_1280 words_1408 words_1536 words_1664 words_1792 words_1920
english_wordlist =
    words_0
    ++ (words_128
        ++ (words_256
            ++ (words_384
                ++ (words_512
                    ++ (words_640
                        ++ (words_768
                            ++ (words_896
                                ++ (words_1024
                                    ++ (words_1152
                                        ++ (words_1280
                                            ++ (words_1408
                                                ++ (words_1536
                                                    ++ (words_1664
                                                        ++ (words_1792 ++ (words_1920)))))))))))))))
